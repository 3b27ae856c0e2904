-- ===== src/Reporting/Ranking.antt =====
-- The order of the items and of the late calls of a report.
use phone_law.Prelude.{
  ℕ, String, ◌≡◌, sym, subst, inl, inr, Bool, true, false, ◌&&◌, ◌||◌, not, ◌==◌, eq_iff, eq_refl,
  arith, Bool-cases, IsRanking, text_lt, text_lt_total, text_lt_irrefl, text_lt_trans, ltb, eqb,
}
use phone_law.Reporting.Sections.{ReportCallInput}
use phone_law.Reporting.Aggregate.{Entry, entry_before, later_before, priority_order}

pub reference : ReportCallInput → String
reference c = c.synthetic_reference

abbrev pub entry_reference : Entry → String
entry_reference e = e.call.synthetic_reference

-- Tuples of two texts, and of two numbers and two texts, as Python compares them.
abbrev pair_before : (a b c d : String) → Bool
pair_before a b c d = text_lt a b || (a == b && text_lt c d)

pair_behind :
    (a b c d e f : String)
    → pair_before c a f d ≡ false
    → pair_before c b f e ≡ true
    → pair_before a b d e ≡ true
pair_behind a b c d e f h k = elim (Bool-cases (a == c)) [
  | inl same ↦
      let k' : pair_before a b f e ≡ true =
        subst (λ x. pair_before x b f e ≡ true) (sym ((eq_iff a c).0 same)) k in
      let h' : pair_before a a f d ≡ false =
        subst (λ x. pair_before x a f d ≡ false) (sym ((eq_iff a c).0 same)) h in
      elim (Bool-cases (d == f)) [
        | inl same' ↦ subst (λ x. pair_before a b x e ≡ true) (sym ((eq_iff d f).0 same')) k'
        | inr apart' ↦
            ground (arith, text_lt_irrefl a, eq_refl a, text_lt_total d f, text_lt_trans d f e)
      ]
  | inr apart ↦
      let first : text_lt a c ≡ true = ground (arith, text_lt_total a c) in
      elim (Bool-cases (c == b)) [
        | inl same ↦
            let second : text_lt a b ≡ true =
              subst (λ x. text_lt a x ≡ true) ((eq_iff c b).0 same) first in
            ground arith
        | inr other ↦
            let next : text_lt c b ≡ true = ground arith in
            let second : text_lt a b ≡ true = text_lt_trans a c b first next in ground arith
      ]
]

abbrev tuple_before : (p q s t : ℕ) (a b c d : String) → Bool
tuple_before p q s t a b c d = ltb p q || (eqb p q && (ltb s t || (eqb s t && pair_before a b c d)))

tuple_behind :
    (p q r s t u : ℕ) (a b c d e f : String)
    → tuple_before r p u s c a f d ≡ false
    → tuple_before r q u t c b f e ≡ true
    → tuple_before p q s t a b d e ≡ true
tuple_behind p q r s t u a b c d e f h k = ground (arith, pair_behind a b c d e f)

tuple_decided :
    (p q s t : ℕ) (a b d e : String)
    → (a == b) ≡ false
    → tuple_before q p t s b a e d ≡ not (tuple_before p q s t a b d e)
tuple_decided p q s t a b d e apart = ground (arith, text_lt_total a b, eq_iff a b, eq_iff b a)

pub entry_before-IsRanking : IsRanking entry_before entry_reference
entry_before-IsRanking = record {
  behind = λ x y z h k.
      tuple_behind (priority_order x.item.priority) (priority_order y.item.priority)
        (priority_order z.item.priority) x.call.occurred_at y.call.occurred_at z.call.occurred_at
        x.call.synthetic_reference y.call.synthetic_reference z.call.synthetic_reference
        x.item.item_id y.item.item_id z.item.item_id h k;
  decided = λ x y apart.
      tuple_decided (priority_order x.item.priority) (priority_order y.item.priority)
        x.call.occurred_at y.call.occurred_at x.call.synthetic_reference y.call.synthetic_reference
        x.item.item_id y.item.item_id apart;
}

pub later_before-IsRanking : IsRanking later_before (λ c. c.synthetic_reference)
later_before-IsRanking = record {
  behind = λ x y z h k. ground (
    arith,
    text_lt_total x.synthetic_reference z.synthetic_reference,
    text_lt_trans x.synthetic_reference z.synthetic_reference y.synthetic_reference,
    eq_iff x.synthetic_reference z.synthetic_reference,
  );
  decided = λ x y apart. ground (arith, text_lt_total x.synthetic_reference y.synthetic_reference);
}
