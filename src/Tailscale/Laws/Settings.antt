-- ===== src/Tailscale/Laws/Settings.antt =====
-- When the checks of the settings that are Boolean or text report nothing.
use ansible_install.Prelude.{
  ◌≡◌, refl, ◌↔◌, String, Bool, true, false, Option, none, some, List, [], ◌∷◌, map, eq→≡, ≡→eq,
  arith,
}
use ansible_install.Prelude.Text.{rstrip_char}
use ansible_install.Prelude.Split.{mem}
use ansible_install.Prelude.Lists.{All, append-nil}
use ansible_install.Prelude.Dict.{Dict, get, pop}
use ansible_install.Prelude.Json.{Json, null, bool, num, str, arr, obj, Fields, value_of, truthy}
use ansible_install.Tailscale.Flags.{BoolFlag, StringFlag, Positional}
use ansible_install.Tailscale.Settings.{
  login_problems, unexpected, positionals, positional_problems, has_bool, wanted_bool, bool_problem,
  bool_problems, text_pref, wanted_text, text_problem, text_problems, is_default_control,
  or_empty_text, url_problems, control_problems,
}
use ansible_install.Tailscale.Laws.Popping.{All-get-pop}

-- No name stands in the list twice.
abbrev pub Apart : List String → Type 0
Apart [] = Unit
Apart (x ∷ xs) = (mem x xs ≡ false) × Apart xs

pub map-nil {ℓ κ} :
    {A : Type ℓ} {B : Type κ} (f : A → B) (xs : List A) → (map f xs ≡ []) ↔ (xs ≡ [])
map-nil f [] = ground arith
map-nil f (x ∷ xs) = ground arith

pub login_problems-nil :
    (prefs : Fields)
    → (login_problems prefs ≡ []) ↔ (
        (truthy (value_of prefs "LoggedOut") ≡ false)
        × (truthy (value_of prefs "WantRunning") ≡ true))
unfolding login_problems
login_problems-nil prefs = ground arith

pub positional_problems-nil : (p : Positional) → (positional_problems p ≡ []) ↔ (positionals p ≡ [])
unfolding positional_problems
positional_problems-nil p = map-nil unexpected (positionals p)

bool_problem-nil :
    (f : BoolFlag) (have want : Bool) → (bool_problem f have want ≡ []) ↔ (have ≡ want)
bool_problem-nil f have want = ground arith

pub bool_problems-nil :
    (prefs : Fields) (flags : Dict String) (fs : List BoolFlag)
    → Apart (map (λ (f : BoolFlag). f.flag) fs)
    → (bool_problems prefs flags fs ≡ [])
      ↔ All (λ f. has_bool prefs f.key f.default ≡ wanted_bool f (get flags f.flag)) fs
unfolding bool_problems
bool_problems-nil prefs flags [] apart = (λ _. tt, λ _. refl)
bool_problems-nil prefs flags (f ∷ fs) (fresh, apart) =
    let (there, back) = bool_problems-nil prefs (pop flags f.flag) fs apart in
    let (given, taken) =
      All-get-pop (λ (g : BoolFlag). g.flag)
        (λ g o. has_bool prefs g.key g.default ≡ wanted_bool g o) flags f.flag fs fresh in
    let (first, again) =
      bool_problem-nil f (has_bool prefs f.key f.default) (wanted_bool f (get flags f.flag)) in
    (
      λ h. let (a, b) = (append-nil _ _).0 h in (first a, given (there b)),
      λ (a, b). (append-nil _ _).1 (again a, back (taken b)),
    )

text_problem-nil :
    (f : StringFlag) (have want : String) → (text_problem f have want ≡ []) ↔ (have ≡ want)
unfolding text_problem
text_problem-nil f have want = ground (arith, eq→≡ have want, ≡→eq have want)

pub text_problems-nil :
    (prefs : Fields) (flags : Dict String) (fs : List StringFlag)
    → Apart (map (λ (f : StringFlag). f.flag) fs)
    → (text_problems prefs flags fs ≡ [])
      ↔ All (λ f. text_pref (value_of prefs f.key) ≡ wanted_text f (get flags f.flag)) fs
unfolding text_problems
text_problems-nil prefs flags [] apart = (λ _. tt, λ _. refl)
text_problems-nil prefs flags (f ∷ fs) (fresh, apart) =
    let (there, back) = text_problems-nil prefs (pop flags f.flag) fs apart in
    let (given, taken) =
      All-get-pop (λ (g : StringFlag). g.flag)
        (λ g o. text_pref (value_of prefs g.key) ≡ wanted_text g o) flags f.flag fs fresh in
    let (first, again) =
      text_problem-nil f (text_pref (value_of prefs f.key)) (wanted_text f (get flags f.flag)) in
    (
      λ h. let (a, b) = (append-nil _ _).0 h in (first a, given (there b)),
      λ (a, b). (append-nil _ _).1 (again a, back (taken b)),
    )

-- What the preference for the control server is to be, from the flag if it is given.
abbrev pub SameControl : Json → Option String → Type 0
SameControl have none = is_default_control have ≡ true
SameControl have (some control) =
    (url : String) × (have ≡ str url) × (rstrip_char b'/' url ≡ rstrip_char b'/' control)

url_problems-nil :
    (have : Json) (control : String)
    → (url_problems have control ≡ some []) ↔ SameControl have (some control)
unfolding url_problems
url_problems-nil (str url) control = (
  λ h. (url, refl, ground (arith, eq→≡ (rstrip_char b'/' url) (rstrip_char b'/' control))),
  λ (u, e, s). ground (arith, ≡→eq (rstrip_char b'/' url) (rstrip_char b'/' control)),
)
url_problems-nil null control = (λ h. absurd (ground arith), λ (u, e, s). absurd (ground arith))
url_problems-nil (bool b) control = (λ h. absurd (ground arith), λ (u, e, s). absurd (ground arith))
url_problems-nil (num n) control = (λ h. absurd (ground arith), λ (u, e, s). absurd (ground arith))
url_problems-nil (arr xs) control = (λ h. absurd (ground arith), λ (u, e, s). absurd (ground arith))
url_problems-nil (obj doc) control =
    (λ h. absurd (ground arith), λ (u, e, s). absurd (ground arith))

pub control_problems-nil :
    (have : Json) (flag : Option String)
    → (control_problems have flag ≡ some []) ↔ SameControl (or_empty_text have) flag
unfolding control_problems
control_problems-nil have none = ground arith
control_problems-nil have (some control) = url_problems-nil (or_empty_text have) control
