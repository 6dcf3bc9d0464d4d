-- ===== src/Fetch/Headers/Printable.antt =====
-- A header value that is accepted has no byte that could end the header.
use rss_workshop.Common.{
  ℕ, suc, ◌≤◌, ◌≡◌, refl, Bool, true, false, not, ◌&&◌, ◌||◌, Option, none, some, List, [], ◌∷◌,
  ◌==◌, length, arith, inl, inr, Bool-cases,
}
use rss_workshop.Model.Text.{Text, text_eq}
use rss_workshop.Fetch.Headers.{
  max_accept_language, printable, all_of, onto_first, split_on, trim_left_spaces, add_front,
  trim_right_spaces, cut, is_digit, is_letter, decimals_valid, weight_valid, qvalue, subtag_valid,
  subtags_valid, tag_valid, optional_weight, language_range, ranges_error, validate_accept_language,
}

abbrev clean : Text → Bool
clean t = all_of printable t

abbrev all_clean : List Text → Bool
all_clean [] = true
all_clean (t ∷ ts) = clean t && all_clean ts

clean_onto :
    (c : ℕ) (ts : List Text)
    → all_clean (onto_first c ts) ≡ true
    → (printable c ≡ true) × (all_clean ts ≡ true)
unfolding all_of
clean_onto c [] h = (ground arith, refl)
clean_onto c (t ∷ ts) h = (ground arith, ground arith)

split_on-clean :
    (sep : ℕ) (t : Text) → printable sep ≡ true → all_clean (split_on sep t) ≡ true → clean t ≡ true
unfolding split_on all_of printable
split_on-clean sep [] p h = refl
split_on-clean sep (c ∷ t) p h = elim (Bool-cases (c == sep)) [
  | inl e ↦ ground (arith, split_on-clean sep t p)
  | inr e ↦
      let (q, r) = clean_onto c (split_on sep t) (rw (split_on, e) at h) in
      let rest = split_on-clean sep t p r in ground arith
]

trim_left-clean : (t : Text) → clean (trim_left_spaces t) ≡ true → clean t ≡ true
unfolding trim_left_spaces all_of printable
trim_left-clean [] h = refl
trim_left-clean (c ∷ t) h = ground (arith, trim_left-clean t)

add_front-clean :
    (c : ℕ) (t : Text) → clean (add_front c t) ≡ true → (printable c ≡ true) × (clean t ≡ true)
unfolding all_of printable
add_front-clean c [] h = (ground arith, refl)
add_front-clean c (d ∷ t) h = (ground arith, ground arith)

trim_right-clean : (t : Text) → clean (trim_right_spaces t) ≡ true → clean t ≡ true
unfolding trim_right_spaces all_of
trim_right-clean [] h = refl
trim_right-clean (c ∷ t) h =
    let (p, q) = add_front-clean c (trim_right_spaces t) h in
    let r = trim_right-clean t q in ground arith

clean_after : Option Text → Bool
clean_after none = true
clean_after (some t) = clean t

cut-clean :
    (sep : ℕ) (t : Text)
    → printable sep ≡ true
    → clean (cut sep t).0 ≡ true
    → clean_after (cut sep t).1 ≡ true
    → clean t ≡ true
unfolding cut all_of clean_after printable
cut-clean sep [] p h k = refl
cut-clean sep (c ∷ t) p h k = elim (Bool-cases (c == sep)) [
  | inl e ↦ ground arith
  | inr e ↦ ground (arith, cut-clean sep t p)
]

decimals-clean : (one : Bool) (t : Text) → decimals_valid one t ≡ true → clean t ≡ true
unfolding decimals_valid all_of printable
decimals-clean one [] h = refl
decimals-clean one (c ∷ t) h = ground (arith, decimals-clean one t)

subtag-clean :
    (first : Bool) (t : Text)
    → all_of (λ c. is_letter c || (not first && is_digit c)) t ≡ true
    → clean t ≡ true
unfolding all_of printable
subtag-clean first [] h = refl
subtag-clean first (c ∷ t) h = ground (arith, subtag-clean first t)

subtags-clean :
    (first : Bool) (ts : List Text) → subtags_valid first ts ≡ true → all_clean ts ≡ true
unfolding subtags_valid subtag_valid
subtags-clean first [] h = refl
subtags-clean first (t ∷ ts) h = ground (arith, subtag-clean first t, subtags-clean false ts)

single-clean : (x : ℕ) (t : Text) → printable x ≡ true → text_eq t (x ∷ []) ≡ true → clean t ≡ true
unfolding text_eq all_of printable
single-clean x [] p h = cc
single-clean x (c ∷ []) p h = ground arith
single-clean x (c ∷ d ∷ t) p h = ground arith

tag-clean : (t : Text) → tag_valid t ≡ true → clean t ≡ true
unfolding tag_valid printable
tag-clean t h = elim (Bool-cases (text_eq t (b'*' ∷ []))) [
  | inl e ↦ single-clean b'*' t refl e
  | inr e ↦
      split_on-clean b'-' t (ground arith) (subtags-clean true (split_on b'-' t) (ground arith))
]

weight-clean :
    (whole : Text) (decimals : Option Text)
    → weight_valid whole decimals ≡ true
    → (clean whole ≡ true) × (clean_after decimals ≡ true)
unfolding weight_valid clean_after printable
weight-clean whole none h =
    (ground (arith, single-clean b'0' whole refl, single-clean b'1' whole refl), refl)
weight-clean whole (some t) h = (
  ground (arith, single-clean b'0' whole refl, single-clean b'1' whole refl),
  decimals-clean (text_eq whole (b'1' ∷ [])) t (ground arith),
)

qvalue-clean : (t : Text) → qvalue t ≡ true → clean t ≡ true
unfolding qvalue all_of printable
qvalue-clean [] h = cc
qvalue-clean (q ∷ []) h = cc
qvalue-clean (q ∷ e ∷ []) h = cc
qvalue-clean (q ∷ e ∷ c ∷ t) h =
    let number : weight_valid (cut b'.' (c ∷ t)).0 (cut b'.' (c ∷ t)).1 ≡ true = ground arith in
    let (w, d) = weight-clean (cut b'.' (c ∷ t)).0 (cut b'.' (c ∷ t)).1 number in
    let rest = cut-clean b'.' (c ∷ t) refl w d in ground arith

weight_clean_after :
    (weight : Option Text) → optional_weight weight ≡ true → clean_after weight ≡ true
unfolding clean_after
weight_clean_after none h = refl
weight_clean_after (some t) h = trim_left-clean t (qvalue-clean (trim_left_spaces t) h)

range-clean : (t : Text) → language_range t ≡ true → clean t ≡ true
unfolding language_range printable
range-clean t h =
    cut-clean b';' t refl
      (trim_right-clean (cut b';' t).0
        (tag-clean (trim_right_spaces (cut b';' t).0) (ground arith)))
      (weight_clean_after (cut b';' t).1 (ground arith))

ranges-clean : (i : ℕ) (ts : List Text) → ranges_error i ts ≡ none → all_clean ts ≡ true
unfolding ranges_error
ranges-clean i [] h = refl
ranges-clean i (t ∷ ts) h =
    let clean_t = range-clean (trim_right_spaces (trim_left_spaces t)) in
    let right = trim_right-clean (trim_left_spaces t) in
    let left = trim_left-clean t in ground (arith, clean_t, right, left, ranges-clean (suc i) ts)

-- An accepted Accept-Language is at most 128 characters, all of them printable ASCII.
pub validate_accept_language-printable :
    (t : Text)
    → validate_accept_language t ≡ none
    → (all_of printable t ≡ true) × (length t ≤ max_accept_language)
unfolding validate_accept_language all_of printable
validate_accept_language-printable [] h = (refl, omega arith)
validate_accept_language-printable (c ∷ t) h = (
  split_on-clean b',' (c ∷ t) refl (ranges-clean 0 (split_on b',' (c ∷ t)) (ground arith)),
  ground arith,
)
