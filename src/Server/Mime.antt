-- ===== src/Server/Mime.antt =====
-- The type of a file by its extension.
use hbf.Base.{
  ℕ, ◌≡◌, ◌≢◌, refl, ◌∙◌, ap, Option, none, some, [], ◌∷◌, ◌++◌, Bytes, codes, All, ◌==◌,
  if◌then◌else◌, arith,
}
use hbf.Server.{last_dot, mime_of, get_mime_type}

last_dot-none : (name : Bytes) → All (λ c. c ≢ 46) name → last_dot name ≡ none
unfolding last_dot
last_dot-none [] h = refl
last_dot-none (c ∷ cs) (h, hs) = ground (arith, last_dot-none cs hs)

last_dot-cons :
    (c : ℕ) (cs : Bytes)
    → last_dot (c ∷ cs) ≡ (elim (last_dot cs) [
      | some ext ↦ some ext
      | none ↦ if c == 46 then some (c ∷ cs) else none
    ])
unfolding last_dot
last_dot-cons c cs = refl

last_dot-append :
    (base ext : Bytes) → All (λ c. c ≢ 46) ext → last_dot (base ++ 46 ∷ ext) ≡ some (46 ∷ ext)
last_dot-append [] ext h = last_dot-cons 46 ext ∙ rw (last_dot-none ext h) refl
last_dot-append (c ∷ base) ext h =
    last_dot-cons c (base ++ 46 ∷ ext) ∙ rw (last_dot-append base ext h) refl

abbrev type_of : Option Bytes → Bytes
type_of none = codes "application/octet-stream"
type_of (some ext) = mime_of ext

get_mime_type-last_dot : (path : Bytes) → get_mime_type path ≡ type_of (last_dot path)
unfolding get_mime_type
get_mime_type-last_dot path = refl

-- The type of a file depends on what stands behind its last dot alone, with any directories and
-- any dots before; a path without a dot is application/octet-stream.
pub get_mime_type-extension :
    (base ext : Bytes)
    → All (λ c. c ≢ 46) ext
    → (get_mime_type (base ++ 46 ∷ ext) ≡ mime_of (46 ∷ ext))
      × (get_mime_type ext ≡ codes "application/octet-stream")
get_mime_type-extension base ext h = (
  get_mime_type-last_dot (base ++ 46 ∷ ext) ∙ ap type_of (last_dot-append base ext h),
  get_mime_type-last_dot ext ∙ ap type_of (last_dot-none ext h),
)
