-- ===== src/Store/Passwords.antt =====
-- `isMaskedPassword` of src/state-store/memory/AccountsContainer.mjs, with the search in a text
-- that it uses.
use Prim.Native.Char.{code}
use Prim.Native.String.{String}
use betting_automation_contr.Prelude.{
  Bool, true, false, ◌&&◌, ◌||◌, Option, none, some, str_eq, ◌==◌,
}

unfoldable pub starts_with : String → String → Bool
starts_with String.[] s = true
starts_with (String.◌∷◌ c p) String.[] = false
starts_with (String.◌∷◌ c p) (String.◌∷◌ d s) = code c == code d && starts_with p s

-- `String.prototype.includes`.
unfoldable pub contains : String → String → Bool
unfolding starts_with
contains p String.[] = starts_with p String.[]
contains p (String.◌∷◌ d s) = starts_with p (String.◌∷◌ d s) || contains p s

-- `isMaskedPassword`. A missing password is masked.
unfoldable pub is_masked_password : Option String → Bool
unfolding contains
is_masked_password none = true
is_masked_password (some s) =
    str_eq s ""
    || (str_eq s "[PROTECTED]" || (contains "***" s || (contains "???" s || contains "•••" s)))
