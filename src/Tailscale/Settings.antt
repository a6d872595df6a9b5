-- ===== src/Tailscale/Settings.antt =====
-- roles/tailscale/filter_plugins/tailscale.py: `_compare`, from the login to --login-server.
use ansible_install.Prelude.{
  String, ◌<>◌, Bool, true, false, not, ◌||◌, Option, none, some, List, [], ◌∷◌, ◌++◌, map, ◌==◌,
  if◌then◌else◌,
}
use ansible_install.Prelude.Text.{rstrip_char}
use ansible_install.Prelude.Split.{mem}
use ansible_install.Prelude.Dict.{Dict, get, pop}
use ansible_install.Prelude.Json.{
  Json, null, bool, num, str, arr, obj, Fields, member, value_of, truthy,
}
use ansible_install.Prelude.Repr.{repr_text, str_of}
use ansible_install.Prelude.Shell.{quote}
use ansible_install.Tailscale.Flags.{
  BoolFlag, StringFlag, default_control, is_yes, Positional, absent, collected, overwritten,
}

-- A difference, with the `tailscale set` argument that reconciles it.
pub record Problem : Type 0 where
  pub message : String
  pub arg : Option String

abbrev pub by_hand : String → List Problem
by_hand message = record { message = message; arg = none } ∷ []

abbrev pub fixable : String → String → List Problem
fixable message arg = record { message = message; arg = some arg } ∷ []

-- `str(b).lower()`
abbrev pub word_for : Bool → String
word_for b = if b then "true" else "false"

unfoldable pub login_problems : Fields → List Problem
unfolding value_of truthy
login_problems prefs =
    if truthy (value_of prefs "LoggedOut") || not (truthy (value_of prefs "WantRunning"))
    then by_hand
        "tailscale on this node is not logged in and running (LoggedOut/WantRunning); a node is joined only when it is not logged in, with a short-lived tailscale_authkey"
    else []

abbrev pub unexpected : String → Problem
unexpected word = record {
  message = "unexpected argument " <> (repr_text word <> " in the tailscale up flags");
  arg = none;
}

-- The characters of a text, each as a text.
unfoldable pub characters : String → List String
characters String.[] = []
characters (String.◌∷◌ c s) = String.◌∷◌ c "" ∷ characters s

abbrev pub positionals : Positional → List String
unfolding characters
positionals absent = []
positionals (collected toks) = toks
positionals (overwritten text) = characters text

unfoldable pub positional_problems : Positional → List Problem
unfolding characters repr_text
positional_problems p = map unexpected (positionals p)

-- `bool(prefs.get(key, default))`
unfoldable pub has_bool : Fields → String → Bool → Bool
unfolding member truthy
has_bool prefs key default = elim (member prefs key) [ none ↦ default | some v ↦ truthy v ]

-- What a flag means, from its value if it is given.
abbrev pub wanted_bool : BoolFlag → Option String → Bool
unfolding is_yes
wanted_bool f none = f.default
wanted_bool f (some value) = is_yes value

abbrev pub same : Bool → Bool → Bool
same true b = b
same false b = not b

abbrev pub bool_problem : BoolFlag → Bool → Bool → List Problem
bool_problem f have want =
    if same have want
    then []
    else fixable
        (f.key
          <> (" is "
              <> (word_for have
                  <> (" on the node but the role's flags mean --"
                      <> (f.flag <> ("=" <> word_for want))))))
        ("--" <> (f.flag <> ("=" <> word_for want)))

-- The loop over the Boolean flags, each popped in its round.
unfoldable pub bool_problems : Fields → Dict String → List BoolFlag → List Problem
unfolding has_bool pop get is_yes
bool_problems prefs flags [] = []
bool_problems prefs flags (f ∷ rest) =
    bool_problem f (has_bool prefs f.key f.default) (wanted_bool f (get flags f.flag))
    ++ bool_problems prefs (pop flags f.flag) rest

-- `str(v or "")`
unfoldable pub text_pref : Json → String
unfolding truthy str_of
text_pref v = if truthy v then str_of v else ""

abbrev pub wanted_text : StringFlag → Option String → String
wanted_text f none = f.default
wanted_text f (some value) = value

unfoldable pub text_problem : StringFlag → String → String → List Problem
unfolding quote
text_problem f have want =
    if have == want
    then []
    else fixable (f.key <> (" differs between the node and --" <> f.flag))
        ("--" <> (f.flag <> ("=" <> quote want)))

unfoldable pub text_problems : Fields → Dict String → List StringFlag → List Problem
unfolding text_problem text_pref value_of quote pop get
text_problems prefs flags [] = []
text_problems prefs flags (f ∷ rest) =
    text_problem f (text_pref (value_of prefs f.key)) (wanted_text f (get flags f.flag))
    ++ text_problems prefs (pop flags f.flag) rest

abbrev pub is_default_control : Json → Bool
unfolding mem
is_default_control (str url) = mem url default_control
is_default_control _ = false

-- `none` is the AttributeError of `have_control.rstrip` on a preference that is no text.
unfoldable pub url_problems : Json → String → Option (List Problem)
url_problems (str url) control =
    if rstrip_char b'/' url == rstrip_char b'/' control
    then some []
    else some (by_hand "ControlURL differs between the node and --login-server")
url_problems null control = none
url_problems (bool b) control = none
url_problems (num n) control = none
url_problems (arr xs) control = none
url_problems (obj doc) control = none

-- `prefs.get("ControlURL") or ""`
abbrev pub or_empty_text : Json → Json
or_empty_text v = if truthy v then v else str ""

unfoldable pub control_problems : Json → Option String → Option (List Problem)
unfolding truthy mem url_problems
control_problems have none =
    if is_default_control (or_empty_text have)
    then some []
    else some
        (by_hand "ControlURL is not tailscale's default, and the flags have no --login-server")
control_problems have (some control) = url_problems (or_empty_text have) control
