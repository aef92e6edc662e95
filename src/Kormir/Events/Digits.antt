-- ===== src/Kormir/Events/Digits.antt =====
-- The binary digits that are written of a number, and what they read as.
use native.Mathlib.Nat.{pow-zero}
use dlcdevkit.Base.{
  ℕ, zero, suc, ◌+◌, ◌-◌, ◌/◌, ◌%◌, ◌^◌, ◌≤◌, ◌<◌, ◌≡◌, refl, sym, ◌∙◌, inl, inr, arith, true,
  false, List, [], ◌∷◌, ◌++◌, map, length, replicate, ltb, ltb→lt, Bool-cases,
}
use dlcdevkit.Kormir.Messages.{Text}
use dlcdevkit.Kormir.Events.{binary, format_binary}
use dlcdevkit.Trie.Digits.RoundTrip.{value, digits, quotient_below, value-digits, length-digits}

-- A digit as a text of one character, and back.
abbrev pub digit_text : ℕ → Text
digit_text d = (48 + d) ∷ []

abbrev pub text_digit : Text → ℕ
text_digit [] = 0
text_digit (c ∷ cs) = c - 48

-- The number that a list of digits, most significant first, stands for.
abbrev pub read_binary : List Text → ℕ
read_binary texts = value 2 (map text_digit texts)

replicate-cons :
    (w : ℕ) (t : Text) (res : List Text) → replicate w t ++ (t ∷ res) ≡ t ∷ (replicate w t ++ res)
replicate-cons zero t res = refl
replicate-cons (suc w) t res = rw (replicate-cons w t res) refl

zeros :
    (w : ℕ) (ds : List ℕ)
    → map digit_text (digits w 0 2 ds) ≡ replicate w (48 ∷ []) ++ map digit_text ds
unfolding digits
zeros zero ds = refl
zeros (suc w) ds =
    let q : 0 / 2 ≡ 0 = omega arith in
    let r : 0 % 2 ≡ 0 = omega arith in
    rw (q, r) (zeros w (0 ∷ ds) ∙ replicate-cons w (48 ∷ []) (map digit_text ds))

length-map {ℓ κ} :
    {A : Type ℓ} {B : Type κ} (f : A → B) (xs : List A) → length (map f xs) ≡ length xs
length-map f [] = omega arith
length-map f (x ∷ xs) = omega (arith, length-map f xs)

-- What is proved of the digits that are written of n.
abbrev IsPadded : (r w n : ℕ) → List ℕ → Type 0
IsPadded r w n ds =
    let written = binary r n (map digit_text ds) in
    (length written ≤ w + length ds)
    × (replicate (w + length ds - length written) (48 ∷ []) ++ written
        ≡ map digit_text (digits w n 2 ds))

small-IsPadded : (r w n : ℕ) (ds : List ℕ) → ltb n 2 ≡ true → IsPadded (suc r) (suc w) n ds
unfolding binary digits
small-IsPadded r w n ds small =
    let lt = ltb→lt n 2 small in
    let q : n / 2 ≡ 0 = omega (arith, lt) in
    let m : n % 2 ≡ n = omega (arith, lt) in
    let missing : suc w + length ds - suc (length (map digit_text ds)) ≡ w =
      omega (arith, length-map digit_text ds) in
    rw (small, q, m, missing) (omega (arith, length-map digit_text ds), sym (zeros w (n ∷ ds)))

more-IsPadded :
    (r w n : ℕ) (ds : List ℕ)
    → ltb n 2 ≡ false
    → IsPadded r w (n / 2) ((n % 2) ∷ ds)
    → IsPadded (suc r) (suc w) n ds
unfolding binary digits
more-IsPadded r w n ds more h =
    let same : suc w + length ds ≡ w + suc (length ds) = omega arith in rw (more, same) h

-- Written with zeros in front, the digits of n are its last w digits.
binary-IsPadded :
    (r w n : ℕ) (ds : List ℕ) → n < 2 ^ suc r → n < 2 ^ suc w → IsPadded (suc r) (suc w) n ds
binary-IsPadded zero w n ds hr hw = small-IsPadded zero w n ds (ground arith)
binary-IsPadded (suc r) zero n ds hr hw = small-IsPadded (suc r) zero n ds (ground arith)
binary-IsPadded (suc r) (suc w) n ds hr hw = elim (Bool-cases (ltb n 2)) [
  | inl small ↦ small-IsPadded (suc r) (suc w) n ds small
  | inr more ↦ more-IsPadded (suc r) (suc w) n ds more (
      binary-IsPadded r w (n / 2) ((n % 2) ∷ ds) (quotient_below (suc r) n 2 (omega arith) hr)
        (quotient_below (suc w) n 2 (omega arith) hw))
]

-- A 64-bit number that has at most `width` binary digits is written as those digits.
pub format_binary-digits :
    (width n : ℕ)
    → 0 < width
    → n < 2 ^ width
    → n < 2 ^ 64
    → format_binary width n ≡ map digit_text (digits width n 2 [])
unfolding format_binary
format_binary-digits zero n pos h h64 = absurd (omega arith)
format_binary-digits (suc width) n pos h h64 =
    let (le, e) = binary-IsPadded 63 width n [] h64 h in
    let same : suc width + 0 ≡ suc width = omega arith in rw same at e

texts_read : (ds : List ℕ) → map text_digit (map digit_text ds) ≡ ds
texts_read [] = refl
texts_read (d ∷ ds) = let e : 48 + d - 48 ≡ d = omega arith in rw (e, texts_read ds) refl

-- The number is read back from them, and there are `width` of them.
pub format_binary-reads :
    (width n : ℕ)
    → 0 < width
    → n < 2 ^ width
    → n < 2 ^ 64
    → (read_binary (format_binary width n) ≡ n) × (length (format_binary width n) ≡ width)
format_binary-reads width n pos h h64 =
    rw (format_binary-digits width n pos h h64, texts_read (digits width n 2 []))
      (
        omega (arith, value-digits width n 2 [] (omega arith) h, pow-zero 2),
        omega (arith, length-map digit_text (digits width n 2 []), length-digits width n 2 []),
      )
