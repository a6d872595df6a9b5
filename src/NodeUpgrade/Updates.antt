-- ===== src/NodeUpgrade/Updates.antt =====
-- roles/node_upgrade/filter_plugins/node_upgrade.py: pending OS updates, and files that dockerd has
-- not loaded yet.
use Prim.Native.Char.{code}
use ansible_install.Prelude.{
  ℕ, ◌/◌, String, Bool, true, false, ◌&&◌, not, Option, none, some, List, [], ◌∷◌, ◌++◌, ◌==◌, ltb,
  if◌then◌else◌,
}
use ansible_install.Prelude.Text.{strip, lstrip_char, has, cut, strip_prefix}
use ansible_install.Prelude.Split.{lines, words, mem}
use ansible_install.Prelude.Int.{all_digits, number_from}
use ansible_install.Prelude.Lists.{any, select, length, is_empty}

-- A pattern `^(stem|…)(c|…|$)`: one of the stems, then one of the characters or the end.
pub record Pattern : Type 0 where
  pub stems : List String
  pub enders : String

abbrev reboot_package_patterns : List Pattern
reboot_package_patterns =
    record {
      stems =
          "linux-image" ∷ "linux-modules" ∷ "linux-modules-extra" ∷ "linux-generic"
          ∷ "linux-virtual" ∷ "linux-kvm" ∷ "linux-headers" ∷ "linux-firmware" ∷ [];
      enders = "-";
    }
    ∷ record { stems = "libc6" ∷ []; enders = ":" }
    ∷ record { stems = "libc-bin" ∷ []; enders = ":" }
    ∷ record { stems = "dbus" ∷ []; enders = "-:" }
    ∷ record { stems = "libdbus-1-3" ∷ []; enders = ":" }
    ∷ record { stems = "intel-microcode" ∷ "amd64-microcode" ∷ []; enders = ":" }
    ∷ record { stems = "libpam0g" ∷ []; enders = ":" }
    ∷ record {
      stems = "libpam-modules" ∷ "libpam-modules-bin" ∷ "libpam-runtime" ∷ [];
      enders = ":";
    }
    ∷ record { stems = "systemd" ∷ "systemd-sysv" ∷ []; enders = ":" }
    ∷ []

abbrev ends_stem : String → Option String → Bool
ends_stem enders none = false
ends_stem enders (some String.[]) = true
ends_stem enders (some (String.◌∷◌ c rest)) = has (code c) enders

unfoldable pub asks_for_reboot : String → Bool
unfolding any has strip_prefix
asks_for_reboot name =
    any (λ pattern. any (λ stem. ends_stem pattern.enders (strip_prefix name stem)) pattern.stems)
      reboot_package_patterns

-- The package of an `Inst` line.
unfoldable pub installs : List String → Option String
installs (verb ∷ name ∷ rest) = if verb == "Inst" then some name else none
installs _ = none

unfoldable pub add_package : List String → String → List String
add_package pkgs line = elim (installs (words line)) [
  | none ↦ pkgs
  | some name ↦ if mem name pkgs then pkgs else pkgs ++ (name ∷ [])
]

unfoldable pub packages_from : List String → List String → List String
packages_from pkgs [] = pkgs
packages_from pkgs (line ∷ rest) = packages_from (add_package pkgs line) rest

pub record AptSim : Type 0 where
  pub count : ℕ
  pub packages : List String
  pub reboot_packages : List String
  pub reboot_hint : Bool

unfoldable pub parse_apt_sim : Option String → AptSim
parse_apt_sim stdout =
    let text : String = elim stdout [ none ↦ "" | some t ↦ t ] in
    let pkgs = packages_from [] (lines text) in
    let reboot = select asks_for_reboot pkgs in
    record {
      count = length pkgs;
      packages = pkgs;
      reboot_packages = reboot;
      reboot_hint = not (is_empty reboot);
    }

-- What follows the first `=` of a line, stripped, without the leading at signs.
abbrev stamp : String → String
stamp line =
    lstrip_char b'@' (strip (elim (cut b'=' line) [ none ↦ "" | some (key, value) ↦ value ]))

unfoldable pub first_stamp : List String → ℕ
first_stamp [] = 0
first_stamp (line ∷ rest) =
    let later = first_stamp rest in
    if all_digits (stamp line) then number_from 0 (stamp line) else later

unfoldable pub systemd_unix_ts : Option String → ℕ
unfolding first_stamp
systemd_unix_ts none = 0
systemd_unix_ts (some stdout) = first_stamp (lines stdout)

-- One entry of `stats`: a plain row, or a result of a looped stat, whose `stat` may be missing.
-- Modification times are in microseconds.
pub data FileStat : Type 0 where
  plain : String → Bool → Option ℕ → FileStat
  looped : String → Option (Bool × Option ℕ) → FileStat

unfoldable pub path_of : FileStat → String
path_of (plain path exists mtime) = path
path_of (looped item stat) = item

unfoldable pub exists_of : FileStat → Bool
exists_of (plain path exists mtime) = exists
exists_of (looped item none) = false
exists_of (looped item (some (exists, mtime))) = exists

unfoldable pub mtime_of : FileStat → Option ℕ
mtime_of (plain path exists mtime) = mtime
mtime_of (looped item none) = none
mtime_of (looped item (some (exists, mtime))) = mtime

-- `math.floor(float(mtime or 0))`
abbrev pub whole_seconds : Option ℕ → ℕ
whole_seconds none = 0
whole_seconds (some mtime) = mtime / 1000000

-- `epoch` is what `systemd_unix_ts` returns.
unfoldable pub files_newer_than : List FileStat → ℕ → List String
unfolding path_of exists_of mtime_of
files_newer_than [] epoch = []
files_newer_than (s ∷ stats) epoch =
    let rest = files_newer_than stats epoch in
    if exists_of s && ltb epoch (whole_seconds (mtime_of s)) then path_of s ∷ rest else rest
