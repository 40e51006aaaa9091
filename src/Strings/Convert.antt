-- ===== src/Strings/Convert.antt =====
-- What the conversions of ServiceCall/str.cpp give, and where they read outside their buffers.
use service_call.Base.{
  ℕ, ◌≡◌, ◌≢◌, refl, ap, sym, ◌∙◌, [], ◌∷◌, ◌++◌, none, some, length, arith, has, false, ◌==◌, ◌+◌,
  ◌↔◌, inl, inr, Bool-cases,
}
use service_call.Strings.{
  Text, Conversion, until_zero, overwrite, assign_at, convert_char, convert_wchar, char_to_wchar,
  wchar_to_char,
}

-- The documented behaviour of a conversion that gives `converted`: asked with a size of 0 it returns the
-- count of the result's characters, and with that size it writes them; a failure is the empty result.
pub record Converts (convert : Conversion) (converted : (code_page : ℕ) → Text → Text)
    : Type 0 where
  pub counts : (p : ℕ) (s : Text) → (convert p s 0).0 ≡ length (converted p s)
  pub writes : (p : ℕ) (s : Text) → (convert p s (length (converted p s))).1 ≡ converted p s

-- A buffer of one character more than is written keeps its last one.
overwrite-last :
    (buffer ys : Text)
    → length buffer ≡ length ys + 1
    → (last : ℕ) × (overwrite buffer ys ≡ some (ys ++ last ∷ [])) × (ys ≡ [] → buffer ≡ last ∷ [])
unfolding overwrite
overwrite-last [] ys e = absurd (omega arith)
overwrite-last (b ∷ []) [] e = (b, refl, λ z. refl)
overwrite-last (b ∷ c ∷ bs) [] e = absurd (omega arith)
overwrite-last (b ∷ bs) (y ∷ ys) e =
    let (last, same, _) = overwrite-last bs ys (omega arith) in
    (last, rw same refl, λ z. absurd (cc))

assign_at-last :
    (ys : Text) (last : ℕ) → assign_at (length ys) 0 (ys ++ last ∷ []) ≡ some (ys ++ 0 ∷ [])
unfolding assign_at
assign_at-last [] last = refl
assign_at-last (y ∷ ys) last = rw (assign_at-last ys last) refl

until_zero-ended : (xs ys : Text) → has 0 xs ≡ false → until_zero (xs ++ 0 ∷ ys) ≡ some xs
until_zero-ended [] ys h = refl
until_zero-ended (x ∷ xs) ys h =
    let n : (x == 0) ≡ false = ground arith in rw (n, until_zero-ended xs ys (ground arith)) refl

until_zero-terminated : (xs : Text) → (ys : Text) × (until_zero (xs ++ 0 ∷ []) ≡ some ys)
until_zero-terminated [] = ([], refl)
until_zero-terminated (x ∷ xs) = elim (Bool-cases (x == 0)) [
  | inl t ↦ ([], rw t refl)
  | inr f ↦ let (ys, e) = until_zero-terminated xs in (x ∷ ys, rw (f, e) refl)
]

until_zero-twice :
    (xs : Text) (last : ℕ) → has 0 xs ≡ false → until_zero ((xs ++ 0 ∷ []) ++ last ∷ []) ≡ some xs
until_zero-twice [] last h = refl
until_zero-twice (x ∷ xs) last h =
    let n : (x == 0) ≡ false = ground arith in rw (n, until_zero-twice xs last (ground arith)) refl

until_zero-single : (b : ℕ) → (until_zero (b ∷ []) ≡ none) ↔ (b ∷ [] ≢ 0 ∷ [])
until_zero-single b = elim (Bool-cases (b == 0)) [
  | inl t ↦
      let z : b ≡ 0 = ground arith in
      rw t (λ e. absurd (cc), λ f. absurd (f (ap (λ (c : ℕ). c ∷ []) z)))
  | inr f ↦ rw f (λ e same. ground arith, λ e. refl)
]

module _ (convert : Conversion) (fresh : ℕ → Text) (converted : (code_page : ℕ) → Text → Text)
    (laws : Converts convert converted) (sized : (n : ℕ) → length (fresh n) ≡ n) where
  -- CharToWchar sets the character behind those that are converted to zero.
  convert_char-converted :
      (p : ℕ) (s : Text) → convert_char convert fresh p s ≡ until_zero (converted p s ++ 0 ∷ [])
  unfolding convert_char
  convert_char-converted p s =
      let n = laws.counts p s in
      let (last, same, _) =
        overwrite-last (fresh (length (converted p s) + 1)) (converted p s)
          (sized (length (converted p s) + 1)) in
      rw (n, laws.writes p s, same, assign_at-last (converted p s) last) refl

  -- WCharToChar leaves the character behind those that are converted as it was in the buffer.
  convert_wchar-converted :
      (p : ℕ) (s : Text)
      → (last : ℕ) × (convert_wchar convert fresh p s ≡ until_zero (converted p s ++ last ∷ []))
        × (converted p s ≡ [] → fresh 1 ≡ last ∷ [])
  unfolding convert_wchar
  convert_wchar-converted p s =
      let n = laws.counts p s in
      let (last, same, old) =
        overwrite-last (fresh (length (converted p s) + 1)) (converted p s)
          (sized (length (converted p s) + 1)) in
      (
        last,
        rw (n, laws.writes p s, same) refl,
        λ e. sym (ap (λ (xs : Text). fresh (length xs + 1)) e) ∙ old e,
      )

  wchar_to_char-converted :
      (p : ℕ) (w s : Text)
      → has 0 s ≡ false
      → w ≢ []
      → converted p (w ++ 0 ∷ []) ≡ s ++ 0 ∷ []
      → wchar_to_char convert fresh (some w) p ≡ some s
  unfolding wchar_to_char
  wchar_to_char-converted p [] s z f e = absurd (f refl)
  wchar_to_char-converted p (x ∷ xs) s z f e =
      let (last, read, _) = convert_wchar-converted p (x ∷ (xs ++ 0 ∷ [])) in
      let same : until_zero (converted p (x ∷ (xs ++ 0 ∷ [])) ++ last ∷ []) ≡ some s =
        rw e (until_zero-twice s last z) in
      read ∙ same

-- With conversions that behave as documented and buffers of the size that is asked for: if the wide text of
-- a text that is not empty has characters and none of them is a zero, CharToWchar gives the wide text; and if
-- that text with its zero is converted back to the text with its zero, and the text has no other zero,
-- WCharToChar gives the text that there was.
pub wchar_to_char-char_to_wchar :
    (to_wide to_multi : Conversion) (fresh fresh' : ℕ → Text)
    (wide multi : (code_page : ℕ) → Text → Text) (encode c : ℕ) (cs : Text)
    → Converts to_wide wide
    → Converts to_multi multi
    → ((n : ℕ) → length (fresh n) ≡ n)
    → ((n : ℕ) → length (fresh' n) ≡ n)
    → has 0 (c ∷ cs) ≡ false
    → has 0 (wide encode (c ∷ cs)) ≡ false
    → wide encode (c ∷ cs) ≢ []
    → multi encode (wide encode (c ∷ cs) ++ 0 ∷ []) ≡ (c ∷ cs) ++ 0 ∷ []
    → (char_to_wchar to_wide fresh (some (c ∷ cs)) encode ≡ some (wide encode (c ∷ cs)))
      × (wchar_to_char to_multi fresh' (some (wide encode (c ∷ cs))) encode ≡ some (c ∷ cs))
wchar_to_char-char_to_wchar to_wide to_multi fresh fresh' wide multi encode c cs l l' n n' z zw ne
      back =
    (
      unfold char_to_wchar in
          convert_char-converted to_wide fresh wide l n encode (c ∷ cs)
          ∙ until_zero-ended (wide encode (c ∷ cs)) [] zw,
      wchar_to_char-converted to_multi fresh' multi l' n' encode (wide encode (c ∷ cs)) (c ∷ cs) z
          ne back,
    )

-- With conversions that behave as documented and buffers of the size that is asked for: CharToWchar of a text that
-- is not empty stays within its buffer, and gives the empty text if the conversion fails. If WideCharToMultiByte
-- fails on a text that is not empty, WCharToChar reads behind its buffer exactly if the one
-- character of it, which nothing has written, is not a zero.
pub wchar_to_char-unconverted :
    (to_wide to_multi : Conversion) (fresh fresh' : ℕ → Text)
    (wide multi : (code_page : ℕ) → Text → Text) (encode c w : ℕ) (cs ws : Text)
    → Converts to_wide wide
    → Converts to_multi multi
    → ((n : ℕ) → length (fresh n) ≡ n)
    → ((n : ℕ) → length (fresh' n) ≡ n)
    → multi encode (w ∷ (ws ++ 0 ∷ [])) ≡ []
    → ((xs : Text) × (char_to_wchar to_wide fresh (some (c ∷ cs)) encode ≡ some xs)
        × (wide encode (c ∷ cs) ≡ [] → xs ≡ []))
      × ((wchar_to_char to_multi fresh' (some (w ∷ ws)) encode ≡ none) ↔ (fresh' 1 ≢ 0 ∷ []))
unfolding char_to_wchar wchar_to_char
wchar_to_char-unconverted to_wide to_multi fresh fresh' wide multi encode c w cs ws l l' n n'
      failed =
    let given = convert_char-converted to_wide fresh wide l n encode (c ∷ cs) in
    let (xs, ended) = until_zero-terminated (wide encode (c ∷ cs)) in
    let (last, read, old) =
      convert_wchar-converted to_multi fresh' multi l' n' encode (w ∷ (ws ++ 0 ∷ [])) in
    let single : wchar_to_char to_multi fresh' (some (w ∷ ws)) encode ≡ until_zero (last ∷ []) =
      read ∙ ap (λ (xs : Text). until_zero (xs ++ last ∷ [])) failed in
    (
      (
        xs,
        given ∙ ended,
        λ e. let empty : until_zero (wide encode (c ∷ cs) ++ 0 ∷ []) ≡ some [] = rw e refl in cc,
      ),
      rw (single, old failed) (until_zero-single last),
    )
