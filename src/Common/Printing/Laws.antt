-- ===== src/Common/Printing/Laws.antt =====
-- What the texts of source/nitek/common/types.h tell apart.
use nitek.Base.{ℕ, ◌≡◌, ◌≢◌, refl, sym, ◌∙◌, inl, inr, Bool-cases, ==→eq, ◌==◌}
use nitek.Common.Messages.{default_update}
use nitek.Common.Printing.{
  Numbers, numeric_to_str, order_id_to_str, ticker_id_to_str, qty_to_str, priority_to_str,
  price_to_str, side_to_str, update_type_to_str, update_to_str,
}

-- If what the standard library writes tells numbers apart, and is never INVALID, then so does
-- `numeric_to_str`, the largest value included.
numeric_to_str-injective :
    (n : Numbers) (invalid a b : ℕ)
    → ((x y : ℕ) → n.natural x ≡ n.natural y → x ≡ y)
    → ((x : ℕ) → n.natural x ≢ "INVALID")
    → numeric_to_str n invalid a ≡ numeric_to_str n invalid b
    → a ≡ b
unfolding numeric_to_str
numeric_to_str-injective n invalid a b apart never e = elim (Bool-cases (a == invalid)) [
  | inl p ↦ elim (Bool-cases (b == invalid)) [
    | inl q ↦ ==→eq a invalid p ∙ sym (==→eq b invalid q)
    | inr q ↦ absurd (never b (sym (rw (p, q) at e)))
  ]
  | inr p ↦ elim (Bool-cases (b == invalid)) [
    | inl q ↦ absurd (never a (rw (p, q) at e))
    | inr q ↦ apart a b (rw (p, q) at e)
  ]
]

-- A writer of numbers for the test.
abbrev marks : Numbers
marks = record { natural = λ n. "7"; integer = λ z. "-" }

update_to_str_default :
    update_to_str marks default_update
    ≡ "<OMEMarketUpdate> [type: INVALID, ticker: INVALID, oid: INVALID, side: INVALID, qty: INVALID, price: INVALID, priority: INVALID]"
unfolding update_to_str update_type_to_str ticker_id_to_str order_id_to_str side_to_str qty_to_str
    price_to_str priority_to_str numeric_to_str
update_to_str_default = refl
