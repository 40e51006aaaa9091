-- ===== src/Strings/Tests.antt =====
-- A code page that adds 256 to each character.
use service_call.Base.{
  ℕ, suc, zero, ◌+◌, ◌-◌, ◌≡◌, ◌≢◌, ◌↔◌, none, refl, [], ◌∷◌, some, ◌==◌, if◌then◌else◌, length,
  arith, map,
}
use service_call.Strings.{Text, Conversion, char_to_wchar, wchar_to_char}
use service_call.Strings.Convert.{Converts, wchar_to_char-char_to_wchar, wchar_to_char-unconverted}

abbrev shift_up : ℕ → ℕ
shift_up c = if c == 0 then 0 else c + 256

abbrev shift_down : ℕ → ℕ
shift_down c = if c == 0 then 0 else c - 256

abbrev wide : (code_page : ℕ) → Text → Text
wide code_page = map shift_up

abbrev multi : (code_page : ℕ) → Text → Text
multi code_page = map shift_down

abbrev by : ((code_page : ℕ) → Text → Text) → Conversion
by converted code_page s size =
    (length (converted code_page s), if size == 0 then [] else converted code_page s)

by-Converts : (converted : (code_page : ℕ) → Text → Text) → Converts (by converted) converted
by-Converts converted = record { counts = λ p s. refl; writes = λ p s. whole (converted p s) }
  where
    whole : (xs : Text) → (if length xs == 0 then [] else xs) ≡ xs
    whole [] = refl
    whole (x ∷ xs) = ground arith

abbrev stale : ℕ → Text
stale zero = []
stale (suc n) = 0xcd ∷ stale n

length-stale : (n : ℕ) → length (stale n) ≡ n
length-stale zero = refl
length-stale (suc n) = omega (arith, length-stale n)

wchar_to_char-char_to_wchar_example :
    (char_to_wchar (by wide) stale (some (0x42 ∷ 0x73 ∷ [])) 0 ≡ some (0x142 ∷ 0x173 ∷ []))
    × (wchar_to_char (by multi) stale (some (0x142 ∷ 0x173 ∷ [])) 0 ≡ some (0x42 ∷ 0x73 ∷ []))
wchar_to_char-char_to_wchar_example =
    wchar_to_char-char_to_wchar (by wide) (by multi) stale stale wide multi 0 0x42 (0x73 ∷ [])
      (by-Converts wide) (by-Converts multi) length-stale length-stale refl refl (λ e. cc) refl

-- No text converts.
abbrev fails : (code_page : ℕ) → Text → Text
fails code_page text = []

wchar_to_char-unconverted_example :
    ((xs : Text) × (char_to_wchar (by wide) stale (some (0x42 ∷ 0x73 ∷ [])) 0 ≡ some xs)
      × (wide 0 (0x42 ∷ 0x73 ∷ []) ≡ [] → xs ≡ []))
    × ((wchar_to_char (by fails) stale (some (0x142 ∷ [])) 0 ≡ none) ↔ (stale 1 ≢ 0 ∷ []))
wchar_to_char-unconverted_example =
    wchar_to_char-unconverted (by wide) (by fails) stale stale wide fails 0 0x42 0x142 (0x73 ∷ [])
      [] (by-Converts wide) (by-Converts fails) length-stale length-stale refl
