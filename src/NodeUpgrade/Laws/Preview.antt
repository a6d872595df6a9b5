-- ===== src/NodeUpgrade/Laws/Preview.antt =====
-- What the preview of OS updates lists.
use ansible_install.Prelude.{
  ◌≡◌, ◌≢◌, ◌↔◌, refl, sym, ap, ◌∙◌, inl, inr, String, Bool, true, false, Option, ◌||◌, none, some,
  List, [], ◌∷◌, ◌==◌, eq→≡, ≡→eq, arith, Bool-cases, Option-cases,
}
use ansible_install.Prelude.Split.{mem, lines, words}
use ansible_install.Prelude.Lists.{any, In}
use ansible_install.Prelude.Members.{any-In, In-any}
use mathlib.Core.Path.{ap₂}
use mathlib.Core.Option.{some-injective}
use ansible_install.NodeUpgrade.Updates.{installs, add_package, packages_from, parse_apt_sim}
use ansible_install.NodeUpgrade.Laws.Stopping.{NoRepeats, mem-append, append-NoRepeats}

add_package-NoRepeats :
    (pkgs : List String) (line : String) → NoRepeats pkgs → NoRepeats (add_package pkgs line)
unfolding add_package
add_package-NoRepeats pkgs line u = elim (Option-cases (installs (words line))) [
  | inl e ↦ rw (e, add_package) u
  | inr (name, e) ↦ elim (Bool-cases (mem name pkgs)) [
    | inl old ↦ rw (e, add_package, old) u
    | inr new ↦ rw (e, add_package, new) (append-NoRepeats pkgs name u new)
  ]
]

false-ne-true : ◌≡◌ {A = Bool} false true → ⊥
false-ne-true h = cc

-- Whether a line installs the package.
abbrev is_install : String → String → Bool
is_install name line = elim (installs (words line)) [ none ↦ false | some other ↦ name == other ]

mem-add_package :
    (name : String) (pkgs : List String) (line : String)
    → mem name (add_package pkgs line) ≡ (mem name pkgs || is_install name line)
unfolding add_package
mem-add_package name pkgs line = elim (Option-cases (installs (words line))) [
  | inl e ↦ rw (e, add_package, is_install) (ground arith)
  | inr (other, e) ↦
      rw (e, add_package, is_install)
        (unfold mem in ground (arith, mem-append name pkgs (other ∷ []), eq→≡ name other))
]

packages_from-NoRepeats :
    (rest pkgs : List String) → NoRepeats pkgs → NoRepeats (packages_from pkgs rest)
unfolding packages_from
packages_from-NoRepeats [] pkgs u = u
packages_from-NoRepeats (line ∷ rest) pkgs u =
    packages_from-NoRepeats rest _ (add_package-NoRepeats pkgs line u)

mem-packages_from :
    (name : String) (rest pkgs : List String)
    → mem name (packages_from pkgs rest) ≡ (mem name pkgs || any (is_install name) rest)
unfolding packages_from any
mem-packages_from name [] pkgs = ground arith
mem-packages_from name (line ∷ rest) pkgs =
    mem-packages_from name rest (add_package pkgs line) ∙ rw mem-add_package (ground arith)

-- The words of a line that installs the package: `Inst`, its name and more.
abbrev pub IsInstLine : String → String → Type 0
IsInstLine name line = (rest : List String) × (words line ≡ "Inst" ∷ name ∷ rest)

installs-words :
    (name : String) (ws : List String)
    → installs ws ≡ some name
    → (rest : List String) × (ws ≡ "Inst" ∷ name ∷ rest)
unfolding installs
installs-words name [] h = absurd (cc)
installs-words name (verb ∷ []) h = absurd (cc)
installs-words name (verb ∷ other ∷ rest) h = elim (Bool-cases (verb == "Inst")) [
  | inl e ↦
      (rest, ap₂ (λ v n. v ∷ n ∷ rest) (eq→≡ verb "Inst" e) (some-injective other name (rw e at h)))
  | inr e ↦ absurd (none-ne-some (rw e at h))
]
  where
    none-ne-some : ◌≢◌ {A = Option String} none (some name)
    none-ne-some k = cc

is_install→words : (name line : String) → is_install name line ≡ true → IsInstLine name line
is_install→words name line h = elim (Option-cases (installs (words line))) [
  | inl e ↦ absurd (false-ne-true (rw (e, is_install) at h))
  | inr (other, e) ↦
      installs-words name (words line)
        (e ∙ ap some (sym (eq→≡ name other (rw (e, is_install) at h))))
]

words→is_install : (name line : String) → IsInstLine name line → is_install name line ≡ true
unfolding installs ◌==◌
words→is_install name line (rest, e) = rw (is_install, e, ≡→eq name name refl) refl

-- The preview lists a package exactly if a line of the output consists of the word `Inst`, the name
-- of the package and any other words, and it lists no package twice.
pub parse_apt_sim-packages :
    (stdout : String)
    → ((name : String)
        → (mem name (parse_apt_sim (some stdout)).packages ≡ true)
          ↔ ((line : String) × In line (lines stdout) × IsInstLine name line))
      × NoRepeats (parse_apt_sim (some stdout)).packages
unfolding parse_apt_sim mem
parse_apt_sim-packages stdout = (
  λ name.
      let found = mem-packages_from name (lines stdout) [] in
      (
        λ h.
            let (line, m, e) = any-In (is_install name) (lines stdout) (sym found ∙ h) in
            (line, m, is_install→words name line e),
        λ (line, m, e).
            found ∙ In-any (is_install name) line (lines stdout) m (words→is_install name line e),
      ),
  packages_from-NoRepeats (lines stdout) [] tt,
)
