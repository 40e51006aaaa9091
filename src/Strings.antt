-- ===== src/Strings.antt =====
-- ServiceCall/str.cpp: CharToWchar and WCharToChar, and the A variants of ServiceCall/ServiceCall.cpp that
-- convert a name by them. A C string is its characters in front of the terminating zero; `none` is the null pointer.
-- MultiByteToWideChar and WideCharToMultiByte are not of this program: each is a parameter.
pub mod Convert
mod Tests
use service_call.Base.{
  ℕ, zero, suc, leb, List, [], ◌∷◌, ◌++◌, Option, none, some, ◌==◌, if◌then◌else◌, length, ◌>>=◌,
  ◌+◌, ap,
}
use service_call.Parameter.{Arch}
use service_call.Client.Defs
use service_call.Client.Defs.{service_call_w}
use service_call.ClientIds.{Globals}
use service_call.Server.Register
use service_call.Server.Register.{register_w}

abbrev pub Text : Type 0
Text = List ℕ

-- A conversion by code page: with a size of 0 for the buffer or with a size that it fits in, the count that it
-- returns and the characters that it writes.
abbrev pub Conversion : Type 0
Conversion = (code_page : ℕ) → Text → (size : ℕ) → ℕ × Text

-- CP_ACP, the default of the last parameter.
abbrev pub cp_acp : ℕ
cp_acp = 0

-- A buffer read as a C string; `none` is a read behind its end.
abbrev pub until_zero : Text → Option Text
until_zero [] = none
until_zero (c ∷ cs) = if c == 0 then some [] else do rest ← until_zero cs; some (c ∷ rest)

-- What is in a buffer after it is written from its beginning; `none` is a write behind its end.
unfoldable pub overwrite : (buffer written : Text) → Option Text
overwrite buffer [] = some buffer
overwrite [] (c ∷ cs) = none
overwrite (b ∷ buffer) (c ∷ cs) = do rest ← overwrite buffer cs; some (c ∷ rest)

-- What is in a buffer after its character at an index is assigned; `none` is a write behind its end.
unfoldable pub assign_at : (index c : ℕ) → Text → Option Text
assign_at index c [] = none
assign_at zero c (b ∷ buffer) = some (c ∷ buffer)
assign_at (suc index) c (b ∷ buffer) = do rest ← assign_at index c buffer; some (b ∷ rest)

-- `fresh n` is what lies in a new buffer of `n` characters.
module _ (convert : Conversion) (fresh : ℕ → Text) where
  -- CharToWchar from the call for the length on: a buffer with a character more is written, its last
  -- character is set to zero, and it is read as a C string.
  unfoldable pub convert_char : (code_page : ℕ) → Text → Option Text
  unfolding overwrite assign_at
  convert_char code_page text = do
    let len = (convert code_page text 0).0
    buffer ← overwrite (fresh (len + 1)) (convert code_page text len).1
    buffer ← assign_at len 0 buffer
    until_zero buffer

  -- CharToWchar, which passes strlen.
  unfoldable pub char_to_wchar : Option Text → (encode : ℕ) → Option Text
  unfolding convert_char
  char_to_wchar none encode = some []
  char_to_wchar (some []) encode = some []
  char_to_wchar (some (c ∷ cs)) encode = convert_char encode (c ∷ cs)

  -- WCharToChar from the call for the length on: a buffer with a character more is written and read as a C
  -- string; nothing sets its last character.
  unfoldable pub convert_wchar : (code_page : ℕ) → Text → Option Text
  unfolding overwrite
  convert_wchar code_page text = do
    let len = (convert code_page text 0).0
    buffer ← overwrite (fresh (len + 1)) (convert code_page text len).1
    until_zero buffer

  -- WCharToChar, which passes -1, so that the terminating zero is converted too.
  unfoldable pub wchar_to_char : Option Text → (encode : ℕ) → Option Text
  unfolding convert_wchar
  wchar_to_char none encode = some []
  wchar_to_char (some []) encode = some []
  wchar_to_char (some (c ∷ cs)) encode = convert_wchar encode (c ∷ (cs ++ 0 ∷ []))

-- The A variants: `placed` is the address at which the characters of the wide name are put.
module _ (convert : Conversion) (fresh : ℕ → Text) (placed : Text → ℕ) (name : Option Text) where
  -- ScServiceCallA, whose request has the name's place instead of a name.
  unfoldable pub service_call_a :
      Defs.Answers → (message_length : ℕ) → Defs.Request → Arch → Option Defs.Result
  unfolding char_to_wchar
  service_call_a sys message_length r arch = do
    wide ← char_to_wchar convert fresh name cp_acp
    service_call_w sys message_length (record r { name = placed wide }) arch

  -- ScRegisterServiceRoutineA.
  unfoldable pub register_a :
      Arch → Register.Answers → Globals → Register.Request → Option Register.Result
  unfolding char_to_wchar
  register_a arch sys g r = do
    wide ← char_to_wchar convert fresh name cp_acp
    register_w arch sys g (record r { name = placed wide })
