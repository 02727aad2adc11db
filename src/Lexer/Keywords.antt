-- ===== src/Lexer/Keywords.antt =====
-- Keywords are recognised whatever their case.
use labdb.Prelude.{ℕ, ◌≡◌, refl, arith, List, [], ◌∷◌, ap₂}
use labdb.Lexer.{to_upper, upper, keyword_or_identifier}

to_upper_idem : (c : ℕ) → to_upper (to_upper c) ≡ to_upper c
unfolding to_upper
to_upper_idem c = ground arith

upper_idem : (word : List ℕ) → upper (upper word) ≡ upper word
unfolding upper
upper_idem [] = refl
upper_idem (c ∷ word) = ap₂ ◌∷◌ (to_upper_idem c) (upper_idem word)

-- A word is the keyword, or the identifier, that its upper-case form is, so two words that differ in
-- case only are tokens of one type.
pub keyword_any_case :
    (a b : List ℕ) → upper a ≡ upper b → keyword_or_identifier a ≡ keyword_or_identifier b
unfolding keyword_or_identifier
keyword_any_case a b h = rw h
