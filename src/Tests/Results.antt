-- ===== src/Tests/Results.antt =====
-- node_storage: probes built from registered results.
use ansible_install.Prelude.{
  ◌≡◌, refl, inl, inr, String, ℕ, Bool, if◌then◌else◌, true, false, Option, none, some, [], ◌∷◌,
  ◌==◌,
}
use ansible_install.Prelude.Text.{strip}
use ansible_install.Prelude.Dict.{Dict, get, put}
use ansible_install.Prelude.Int.{pos, show_ℤ}
use ansible_install.NodeStorage.Paths.{text_or, is_set}
use ansible_install.NodeStorage.Results.{
  Command, ran, exited, blkid_of, blkid_error_of, Stat, StatResult, absent, directory, stat_type,
  path_type, path, item_path,
}
use ansible_install.NodeStorage.Probe.{
  Reader, document, lsblk_of, findmnt_of, mount_at, type_at, collect_mounts, collect_types,
  record_find, visit_find, collect_contents, Probe, Registered, resolved_block, build_probe,
}
use ansible_install.NodeStorage.Check.{refuse}
use ansible_install.NodeStorage.Disk.{Setup}
use ansible_install.NodeStorage.Verdict.{classify}
use ansible_install.NodeStorage.Safety.FromResults.{BlkidFoundNothing, blank-blkid}
use ansible_install.NodeStorage.Safety.Listing.{unlisted-refuse}
use ansible_install.Tests.Storage.{setup, xvdb, run}

abbrev exits : ℕ → String → Command
exits code out = record {
  rc = some (pos code);
  skipped = false;
  stdout = some out;
  stderr = some "";
}

abbrev stat_of : Stat → StatResult
stat_of st = record { skipped = false; failed = false; stat = some st }

abbrev stat_dir : StatResult
stat_dir =
    stat_of
      (record { exists = some true; islnk = false; isdir = true; isreg = false; isblk = false })

-- A reader for the texts of this module alone.
abbrev reader : Reader
reader = record {
  blockdevices = λ text. if text == "one disk" then some (xvdb (none ∷ []) none ∷ []) else none;
  filesystems = λ text. none;
}

abbrev one_bind : Setup
one_bind = record setup {
  binds = record { target = "/var/lib/docker"; src_subdir = "docker" } ∷ [];
}

-- The results for a disk without a signature, where find exits with `code` on /var/lib/docker.
abbrev registered : ℕ → Registered
registered code = record {
  device_input = some "/dev/xvdb";
  realpath = some (exits 0 "/dev/xvdb");
  stat = some (
      stat_of
        (record { exists = some true; islnk = false; isdir = false; isreg = false; isblk = true }));
  blkid = some (exits 2 "");
  lsblk = some (exits 0 "one disk");
  findmnt = record { item = "/var/lib/docker"; result = exits 1 "" } ∷ [];
  find = record { item = some (path "/var/lib/docker"); result = exits code "" } ∷ [];
  path_stat =
      record {
        item = some (path "/var/lib/docker-data");
        result = stat_of (record {
          exists = some false;
          islnk = false;
          isdir = false;
          isreg = false;
          isblk = false;
        });
      }
      ∷ record { item = some (path "/var/lib/docker"); result = stat_dir }
      ∷ [];
}

abbrev built_probe : Dict Bool → Dict String → Probe
built_probe nonempty errors = record {
  device_input = "/dev/xvdb";
  device = "/dev/xvdb";
  is_block = true;
  blkid = [];
  blkid_error = "";
  lsblk = some (xvdb (none ∷ []) none);
  mounts = ("/var/lib/docker", none) ∷ [];
  path_types = ("/var/lib/docker-data", absent) ∷ ("/var/lib/docker", directory) ∷ [];
  dir_nonempty = nonempty;
  find_error = errors;
}

build : Registered → Option Probe
unfolding build_probe collect_mounts collect_types collect_contents visit_find record_find
    findmnt_of lsblk_of blkid_of blkid_error_of resolved_block document exited ran text_or strip
    ◌==◌ path_type stat_type item_path put get is_set type_at mount_at show_ℤ
build = build_probe reader

build_runs : build (registered 0) ≡ some (built_probe (("/var/lib/docker", false) ∷ []) [])
unfolding build
build_runs = refl

abbrev unlisted_probe : Probe
unlisted_probe =
    built_probe (("/var/lib/docker", false) ∷ []) (("/var/lib/docker", "find exited 1") ∷ [])

build_unlisted_runs : build (registered 1) ≡ some unlisted_probe
unfolding build
build_unlisted_runs = refl

blank-blkid_example : BlkidFoundNothing (some (exits 2 ""))
unfolding build run
blank-blkid_example =
    blank-blkid reader (registered 0) (built_probe (("/var/lib/docker", false) ∷ []) []) refl
      one_bind refl

unlisted-refuse_example : (classify unlisted_probe one_bind).state ≡ refuse
unfolding build
unlisted-refuse_example =
    unlisted-refuse reader (registered 1) unlisted_probe one_bind "/var/lib/docker"
      (record { item = some (path "/var/lib/docker"); result = exits 1 "" }) refl (inr (inl refl))
      (λ e. cc) refl (inl refl) refl refl
