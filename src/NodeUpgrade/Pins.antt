-- ===== src/NodeUpgrade/Pins.antt =====
-- roles/node_upgrade/filter_plugins/node_upgrade.py: installed packages against their pins.
use ansible_install.Prelude.{
  String, Bool, true, false, not, Option, none, some, List, [], ◌∷◌, ◌==◌, if◌then◌else◌,
}
use ansible_install.Prelude.Text.{cut}
use ansible_install.Prelude.Split.{words}
use ansible_install.Prelude.Dict.{Dict, get, put}

abbrev record_line : List String → Dict String → Dict String
record_line (name ∷ status ∷ version ∷ rest) out =
    if status == "installed" then put out name version else out
record_line _ out = out

parse_dpkg_lines : List String → Dict String → Dict String
parse_dpkg_lines [] out = out
parse_dpkg_lines (line ∷ lines) out = parse_dpkg_lines lines (record_line (words line) out)

unfoldable pub parse_dpkg_status : List String → Dict String
unfolding parse_dpkg_lines words put
parse_dpkg_status lines = parse_dpkg_lines lines []

unfoldable pub split_pin : String → String × Option String
unfolding cut
split_pin entry = elim (cut b'=' entry) [
  | none ↦ (entry, none)
  | some (name, version) ↦ (name, some version)
]

pub record Drift : Type 0 where
  pub name : String
  pub pin : Option String
  pub installed : Option String

-- Whether the installed version differs from what the pin asks for.
unfoldable pub drifts : Option String → Option String → Bool
drifts none pin = true
drifts (some have) none = false
drifts (some have) (some pin) = not (have == pin)

unfoldable pub docker_drift : Dict String → List String → List Drift
unfolding drifts
docker_drift installed [] = []
docker_drift installed (entry ∷ pins) =
    let (name, pin) = split_pin entry in
    let have = get installed name in
    let rest = docker_drift installed pins in
    if drifts have pin then record { name = name; pin = pin; installed = have } ∷ rest else rest
