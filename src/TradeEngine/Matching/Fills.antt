-- ===== src/TradeEngine/Matching/Fills.antt =====
-- What the fills of a leg add up to: `match_leg` and the loop over the legs of a trade.
use swaptrade_contract.Prelude.{
  ℕ, ◌+◌, ◌≡◌, ◌∙◌, ◌⊎◌, refl, inl, inr, true, false, ◌&&◌, List, [], ◌∷◌, ◌++◌, ◌/◌, length, ltb,
  arith, Bool-cases,
}
use mathlib.Core.List.{append-nil, append_assoc}
use swaptrade_contract.Prelude.Int.{ℤ, pos, ◌+ℤ◌, ◌-ℤ◌, ◌≤ℤ◌, leb_ℤ, ltb_ℤ, min_ℤ, int_laws}
use swaptrade_contract.Host.{Address, Env, World, ok, u32_max, trap_if, ◌>>◌, >>=-eq-ok}
use swaptrade_contract.Host.Tokens.{Tokens}
use swaptrade_contract.Host.Words.{as_u128, as_i128, saturating_mul_u128, saturating_sub_i128}
use swaptrade_contract.TradeEngine.Types.{TradeLeg, FillResult, Event, on_side, price_precision}
use swaptrade_contract.TradeEngine.Storage.{Store}
use swaptrade_contract.TradeEngine.OrderBook.{save_book, with_ids, ids_of, load_book}
use swaptrade_contract.TradeEngine.Matching.{
  Tally, beyond_limit, opposite, fill_base_of, fill_quote_of, book_fill, match_leg, match_legs,
}
use swaptrade_contract.TradeEngine.Matching.Rounds.{
  after_fill, Round, Rounds, drop, pass, fill, done, stop, round,
}
use swaptrade_contract.TradeEngine.Matching.Legs.{
  Fallback, unused, beyond, pooled, Leg, match_leg-Leg,
}

-- The sums of the fills.
unfoldable pub base_total : List FillResult → ℤ
base_total [] = pos 0
base_total (f ∷ fs) = f.filled_base +ℤ base_total fs

unfoldable pub quote_total : List FillResult → ℤ
quote_total [] = pos 0
quote_total (f ∷ fs) = f.filled_quote +ℤ quote_total fs

-- Every price is in the limit, and a fill from the book is paid at its price.
abbrev pub AllFair : TradeLeg → List FillResult → Type 0
AllFair leg [] = Unit
AllFair leg (f ∷ fs) =
    (beyond_limit leg f.price ≡ false)
    × ((f.filled_via_pool ≡ true)
        ⊎ (f.filled_quote
            ≡ as_i128 (saturating_mul_u128 (as_u128 f.filled_base) f.price / price_precision)))
    × AllFair leg fs

-- The fills give the leg's amount, in its limit, and at least the output that it asks for.
pub record Completes (leg : TradeLeg) (fills : List FillResult) : Type 0 where
  pub amount : base_total fills ≡ leg.amount
  pub fair : AllFair leg fills
  pub output :
      (leg.min_output_amount ≤ℤ pos 0)
      ⊎ (leg.min_output_amount ≤ℤ on_side leg.side (base_total fills) (quote_total fills))

-- The fills of a trade are those of its legs, in order.
abbrev pub CompletesAll : List TradeLeg → List FillResult → Type 0
CompletesAll [] fills = fills ≡ []
CompletesAll (leg ∷ legs) fills =
    (own : List FillResult) × (others : List FillResult) × (fills ≡ own ++ others)
    × Completes leg own
    × CompletesAll legs others

base_total-snoc :
    (fs : List FillResult) (f : FillResult)
    → base_total (fs ++ f ∷ []) ≡ base_total fs +ℤ f.filled_base
unfolding base_total
base_total-snoc [] f = grind int_laws
base_total-snoc (g ∷ fs) f = let ih = base_total-snoc fs f in grind int_laws

quote_total-snoc :
    (fs : List FillResult) (f : FillResult)
    → quote_total (fs ++ f ∷ []) ≡ quote_total fs +ℤ f.filled_quote
unfolding quote_total
quote_total-snoc [] f = grind int_laws
quote_total-snoc (g ∷ fs) f = let ih = quote_total-snoc fs f in grind int_laws

module _ (leg : TradeLeg) where
  AllFair-snoc :
      (fs : List FillResult) (f : FillResult)
      → AllFair leg fs
      → AllFair leg (f ∷ [])
      → AllFair leg (fs ++ f ∷ [])
  AllFair-snoc [] f h k = k
  AllFair-snoc (g ∷ fs) f h k = (h.0, h.1, AllFair-snoc fs f h.2 k)

  -- The sums of a tally are those of its fills, which with what remains give the leg's amount.
  record IsTallied (t : Tally) : Type 0 where
    rest : pos 0 ≤ℤ t.remaining
    all : t.remaining +ℤ base_total t.fills ≡ leg.amount
    base : t.base ≡ base_total t.fills
    quote : t.quote ≡ quote_total t.fills
    fair : AllFair leg t.fills

  -- One fill more.
  IsTallied-snoc :
      (t t' : Tally) (f : FillResult)
      → IsTallied t
      → pos 0 ≤ℤ t'.remaining
      → t'.remaining ≡ t.remaining -ℤ f.filled_base
      → t'.base ≡ t.base +ℤ f.filled_base
      → t'.quote ≡ t.quote +ℤ f.filled_quote
      → t'.fills ≡ t.fills ++ f ∷ []
      → AllFair leg (f ∷ [])
      → IsTallied t'
  IsTallied-snoc t t' f h r a b q l g =
      let s = base_total-snoc t.fills f in
      let all = h.all in
      record {
        rest = r;
        all = rw (l, s, a) (grind int_laws);
        base = rw (l, s, b, h.base) refl;
        quote = rw (l, quote_total-snoc t.fills f, q, h.quote) refl;
        fair = rw l (AllFair-snoc t.fills f h.fair g);
      }

  min_ℤ-rest : (r x : ℤ) → pos 0 ≤ℤ r -ℤ min_ℤ r x
  min_ℤ-rest r x = elim (Bool-cases (leb_ℤ r x)) [ inl e ↦ grind int_laws | inr e ↦ grind int_laws ]

module _ (env : Env) (trader : Address) (leg : TradeLeg) where
  Round-IsTallied :
      (id : ℕ) (t t1 : Tally) (s s1 : Store)
      → IsTallied leg t
      → Round env trader leg id t s t1 s1
      → IsTallied leg t1
  Round-IsTallied id t t1 s s1 h (drop e k) = rw e h
  Round-IsTallied id t t1 s s1 h (pass e k) =
      rw e (record { rest = h.rest; all = h.all; base = h.base; quote = h.quote; fair = h.fair })
  Round-IsTallied id t t1 s s1 h (fill o e d b k l) =
      let fill_base = fill_base_of t.remaining o in
      rw k (
        IsTallied-snoc leg t (after_fill trader leg id o t)
          (book_fill trader leg o id fill_base (fill_quote_of fill_base o)) h
          (min_ℤ-rest leg t.remaining (saturating_sub_i128 o.amount o.filled_amount)) refl refl refl
          refl (b, inr refl, tt))

  Rounds-IsTallied :
      (ids : List ℕ) (t t' : Tally) (s s' : Store)
      → IsTallied leg t
      → Rounds env trader leg t' s' ids t s
      → IsTallied leg t'
  Rounds-IsTallied [] t t' s s' h (done e k) = rw e h
  Rounds-IsTallied (id ∷ ids) t t' s s' h (stop e k) =
      rw e (record { rest = h.rest; all = h.all; base = h.base; quote = h.quote; fair = h.fair })
  Rounds-IsTallied (id ∷ ids) t t' s s' h (round {t1 = t1} {s1 = s1} z r rs) =
      Rounds-IsTallied ids t1 t' s1 s' (Round-IsTallied id t t1 s s1 h r) rs

  Fallback-IsTallied :
      (t t' : Tally) (s s' : Store) → IsTallied leg t → Fallback leg t s t' s' → IsTallied leg t'
  Fallback-IsTallied t t' s s' h (unused e k) = rw e h
  Fallback-IsTallied t t' s s' h (beyond p e k) = rw e h
  Fallback-IsTallied t t' s s' h (pooled p f q b v e k) = rw e (
      IsTallied-snoc leg t
        (record t {
          remaining = pos 0;
          base = t.base +ℤ f.filled_base;
          quote = t.quote +ℤ f.filled_quote;
          fills = t.fills ++ f ∷ [];
        })
        f h (omega arith) (rw q (grind int_laws)) refl refl refl (b, inl v, tt))

  begun-IsTallied :
      leb_ℤ leg.amount (pos 0) ≡ false
      → IsTallied leg
          (record { remaining = leg.amount; base = pos 0; quote = pos 0; fills = []; kept = [] })
  unfolding base_total quote_total
  begun-IsTallied z = record {
    rest = ground (arith, z);
    all = grind int_laws;
    base = refl;
    quote = refl;
    fair = tt;
  }

  enough_output :
      (z z' : ℤ)
      → z ≡ z'
      → ltb_ℤ (pos 0) leg.min_output_amount ≡ true
      → (ltb_ℤ (pos 0) leg.min_output_amount && ltb_ℤ z leg.min_output_amount) ≡ false
      → leg.min_output_amount ≤ℤ z'
  enough_output z z' e p o =
      let k : ltb_ℤ z' leg.min_output_amount ≡ false = rw (p, e) at o in ground (arith, k)

  IsTallied-Completes :
      (t : Tally)
      → IsTallied leg t
      → ltb_ℤ (pos 0) t.remaining ≡ false
      → (ltb_ℤ (pos 0) leg.min_output_amount
          && ltb_ℤ (on_side leg.side t.base t.quote) leg.min_output_amount)
        ≡ false
      → Completes leg t.fills
  IsTallied-Completes t h c o =
      let rest = h.rest in
      let all = h.all in
      record {
        amount = grind int_laws;
        fair = h.fair;
        output = elim (Bool-cases (ltb_ℤ (pos 0) leg.min_output_amount)) [
          | inl p ↦ inr (
              enough_output (on_side leg.side t.base t.quote)
                (on_side leg.side (base_total t.fills) (quote_total t.fills))
                (rw (h.base, h.quote) refl) p o)
          | inr p ↦ inl (ground arith)
        ];
      }

  Leg-Completes :
      (s s' : Store) (fills : List FillResult) → Leg env trader leg s s' fills → Completes leg fills
  Leg-Completes s s' fills l =
      let start : Tally = record {
        remaining = leg.amount;
        base = pos 0;
        quote = pos 0;
        fills = [];
        kept = [];
      } in
      let book = load_book leg.base_asset leg.quote_asset s in
      let h =
        Fallback-IsTallied l.matched l.total
          (save_book (with_ids (opposite leg.side) l.matched.kept book) l.filled) s'
          (Rounds-IsTallied (ids_of (opposite leg.side) book) start l.matched s l.filled
            (begun-IsTallied l.positive) l.rounds)
          l.fallback in
      rw l.result (IsTallied-Completes l.total h l.complete l.enough)

module _ {L : Type 0} (tok : Tokens L) (env : Env) (trader : Address) where
  pub match_legs-CompletesAll :
      (legs : List TradeLeg) (n n' : ℕ) (fills result : List FillResult) (w : World Store Event L)
      → (match_legs tok env trader legs n fills w).0 ≡ ok (n', result)
      → (more : List FillResult) × (result ≡ fills ++ more)
        × (n' ≡ n + length legs)
        × CompletesAll legs more
  unfolding match_legs
  match_legs-CompletesAll [] n n' fills result w e =
      ([], ground (arith, append-nil fills), ground arith, refl)
  match_legs-CompletesAll (leg ∷ legs) n n' fills result w e =
      let rest = match_legs tok env trader legs (n + 1) in
      let (own, a, b, k) =
        >>=-eq-ok (match_leg tok env trader leg)
          (λ more. trap_if (ltb u32_max (n + 1)) >> rest (fills ++ more)) w (n', result) e in
      let w1 = (match_leg tok env trader leg w).1 in
      let c =
        Leg-Completes env trader leg w.store w1.store own
          (match_leg-Leg tok env trader leg own w a) in
      let (_, _, b', _) =
        >>=-eq-ok (trap_if (ltb u32_max (n + 1))) (λ _. rest (fills ++ own)) w1 (n', result) b in
      let (others, p, m, q) = match_legs-CompletesAll legs (n + 1) n' (fills ++ own) result w1 b' in
      (
        own ++ others,
        p ∙ append_assoc fills own others,
        omega (arith, m),
        (own, others, refl, c, q),
      )
