-- ===== src/Trie/Group/Tests.antt =====
-- The inputs of the source's own tests.
use dlcdevkit.Base.{◌≡◌, refl, [], ◌∷◌, all, list_eqb}
use dlcdevkit.Base.Outcome.{ok}
use dlcdevkit.Trie.Digits.{push_digits, push_zeros, decompose_value}
use dlcdevkit.Base.Float.{to_f64, div_floor, find_ulp, find_shift, round_quotient}
use dlcdevkit.Trie.Group.{
  take_prefix, remove_tail, increment, climb, cross, descend, group_apart, group_rests,
  group_digits, group_by_ignoring_digits,
}

decompose_4321 :
    decompose_value 4321 2 13 ≡ ok (1 ∷ 0 ∷ 0 ∷ 0 ∷ 0 ∷ 1 ∷ 1 ∷ 1 ∷ 0 ∷ 0 ∷ 0 ∷ 0 ∷ 1 ∷ [])
unfolding decompose_value push_digits push_zeros div_floor to_f64 find_ulp find_shift round_quotient
decompose_4321 = refl

group_171_210 :
    group_by_ignoring_digits 171 210 16 2
    ≡ ok (
        (10 ∷ 11 ∷ [])
        ∷ (10 ∷ 12 ∷ [])
        ∷ (10 ∷ 13 ∷ [])
        ∷ (10 ∷ 14 ∷ [])
        ∷ (10 ∷ 15 ∷ [])
        ∷ (11 ∷ [])
        ∷ (12 ∷ [])
        ∷ (13 ∷ 0 ∷ [])
        ∷ (13 ∷ 1 ∷ [])
        ∷ (13 ∷ 2 ∷ [])
        ∷ [])
unfolding decompose_value push_digits push_zeros div_floor to_f64 find_ulp find_shift round_quotient
    group_by_ignoring_digits group_digits group_rests group_apart climb cross descend increment
    remove_tail take_prefix list_eqb all
group_171_210 = refl
