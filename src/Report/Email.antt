-- ===== src/Report/Email.antt =====
-- server/services/reportApprovalDispatchService.ts, `normalizeRecipientEmails`: the addresses that a
-- report is sent to.
pub mod Shape
use Prim.Native.Char.{code}
use Prim.Native.String.{◌∷◌ as cons, [] as str_nil}
use finance.Import.Amounts.{is_space}
use finance.Prelude.{
  ℕ, Bool, true, false, not, ◌&&◌, List, [], ◌∷◌, map, String, ◌==◌, if◌then◌else◌, select,
}
use finance.Close.Tables.{Recipient}
use finance.Close.Reopen.{trim}

-- A text as the list of its code points.
abbrev pub codes : String → List ℕ
codes str_nil = []
codes (cons c s) = code c ∷ codes s

abbrev pub at_sign : ℕ
at_sign = b'@'

abbrev pub dot : ℕ
dot = b'.'

-- `[^\s@]`
abbrev pub is_plain : ℕ → Bool
is_plain c = not (is_space c) && not (c == at_sign)

abbrev pub all_plain : List ℕ → Bool
all_plain [] = true
all_plain (c ∷ s) = if is_plain c then all_plain s else false

-- `[^\s@]+$`
abbrev pub is_word : List ℕ → Bool
is_word [] = false
is_word (c ∷ s) = is_plain c && all_plain s

-- `[^\s@]*\.[^\s@]+$`
abbrev pub has_dot : List ℕ → Bool
has_dot [] = false
has_dot (c ∷ s) =
    let later = has_dot s in if (c == dot) && is_word s then true else is_plain c && later

-- `[^\s@]+\.[^\s@]+$`
abbrev pub is_domain : List ℕ → Bool
is_domain [] = false
is_domain (c ∷ s) = is_plain c && has_dot s

-- `[^\s@]*@[^\s@]+\.[^\s@]+$`
abbrev pub has_at : List ℕ → Bool
has_at [] = false
has_at (c ∷ s) = let later = has_at s in if c == at_sign then is_domain s else is_plain c && later

-- `EMAIL_REGEX`
unfoldable pub is_email : List ℕ → Bool
is_email [] = false
is_email (c ∷ s) = is_plain c && has_at s

-- The first argument is `toLowerCase`.
unfoldable pub normalize_recipient_emails : (String → String) → List Recipient → List String
normalize_recipient_emails lower recipients =
    select (λ e. is_email (codes e)) (map (λ (r : Recipient). lower (trim r.email)) recipients)
