-- ===== src/CloudController/Spaces.antt =====
-- The spaces of apps in the cloud controller's answer (client.go).
use Prim.Native.String.{String}
use Prim.Native.Char.{Char}
use cf_networking_release.Prelude.{
  Bytes, codes, All, ◌==◌, ◌++◌, ◌≡◌, Bool, false, ◌||◌, Option, none, some, List, [], ◌∷◌, ◌⊎◌,
  str_eq, if◌then◌else◌,
}
use cf_networking_release.Assoc.{string_eq}
use cf_networking_release.CloudController.{App}

-- The part has no slash, and the link is the part, or ends in a slash and the part.
abbrev pub IsLastPart : String → String → Type 0
IsLastPart href part =
    All (λ c. (c == b'/') ≡ false) (codes part)
    × ((codes href ≡ codes part) ⊎ ((front : Bytes) × (codes href ≡ front ++ b'/' ∷ codes part)))

-- The text ends in a slash and the part, which has none.
abbrev IsSplit : String → String → Type 0
IsSplit text part =
    All (λ c. (c == b'/') ≡ false) (codes part)
    × (front : Bytes) × (codes text ≡ front ++ b'/' ∷ codes part)

-- The link of the last of the apps with a guid, or what was known before.
abbrev pub link_of_app : String → List App → Option String → Option String
link_of_app guid [] o = o
link_of_app guid (app ∷ apps) o =
    link_of_app guid apps (if str_eq app.guid guid then some app.space_href else o)

-- No link and no space, or a link and its last part.
abbrev pub IsSpaceOf : Option String → Option String → Type 0
IsSpaceOf none none = Unit
IsSpaceOf none (some space) = ⊥
IsSpaceOf (some href) none = ⊥
IsSpaceOf (some href) (some space) = IsLastPart href space

-- Some app of the mapping is in the space.
abbrev pub is_space : String → List (String × String) → Bool
is_space space [] = false
is_space space ((app, s) ∷ mapping) = str_eq s space || is_space space mapping

-- The apps of the answer, where any were asked for.
abbrev pub if_asked : List String → List App → List App
if_asked [] apps = []
if_asked (guid ∷ app_guids) apps = apps
