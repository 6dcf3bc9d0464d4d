-- ===== src/Fetch/Tests.antt =====
-- The header "de,*;q=0.8".
use rss_workshop.Common.{◌≤◌, ◌≡◌, refl, true, none, [], ◌∷◌, length}
use rss_workshop.Model.Text.{Text}
use rss_workshop.Fetch.Headers.{all_of, printable, validate_accept_language}
use rss_workshop.Fetch.Headers.Printable.{validate_accept_language-printable}

abbrev languages : Text
languages = b'd' ∷ b'e' ∷ b',' ∷ b'*' ∷ b';' ∷ b'q' ∷ b'=' ∷ b'0' ∷ b'.' ∷ b'8' ∷ []

languages-valid : validate_accept_language languages ≡ none
unfolding validate_accept_language
languages-valid = refl

validate_accept_language-printable_example :
    (all_of printable languages ≡ true) × (length languages ≤ 128)
validate_accept_language-printable_example =
    validate_accept_language-printable languages languages-valid
