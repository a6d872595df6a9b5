-- ===== src/NodeStorage/Safety/Listing.antt =====
-- A directory that find could not list is refused.
use Prim.Native.Char.{Char}
use Prim.Native.String.append
use ansible_install.Prelude.Lists.{In, All-In}
use ansible_install.Prelude.{
  ◌≡◌, sym, ap, ◌∙◌, ◌≢◌, inl, inr, String, ◌<>◌, Bool, true, false, some, List, [], ◌∷◌, arith,
  ◌==◌, eq→≡, ≡→eq, Option-cases,
}
use ansible_install.Prelude.Dict.{Dict, get, get-put}
use ansible_install.NodeStorage.Paths.{text_or, is_set}
use ansible_install.NodeStorage.Results.{Command, exited, PathType, directory, item_path}
use ansible_install.NodeStorage.Probe.{
  Reader, Registered, Probe, build_probe, FindRow, Mounts, Contents, collect_contents, record_find,
  visit_find, find_failure, exit_words, type_at,
}
use ansible_install.NodeStorage.Check.{refuse}
use ansible_install.NodeStorage.Disk.{Setup, allowed}
use ansible_install.NodeStorage.Verdict.{classify}
use ansible_install.NodeStorage.Safety.States.{classify-refuse}
use ansible_install.NodeStorage.Spec.{PlaceIsSafe}
use ansible_install.NodeStorage.Safety.FromResults.{comes_from}

find_exited_ne_nil : (t : String) → "find exited " <> t ≢ ""
find_exited_ne_nil t h = absurd (cons-ne-nil (sym (append.cons "f" "ind exited " t) ∙ h))
  where
    cons-ne-nil : {c : Char} {r : String} → String.◌∷◌ c r ≢ ""
    cons-ne-nil e = cc

-- The reason recorded for a directory that find did not list is never empty.
find_failure-is_set : (r : Command) → is_set (some (find_failure r)) ≡ true
unfolding is_set text_or
find_failure-is_set r = ground (
  arith,
  eq→≡ ("find exited " <> exit_words (some r)) "",
  find_exited_ne_nil (exit_words (some r)),
)

module _ (types : Dict PathType) (mounts : Mounts) where
  -- An error that is recorded stays recorded.
  record_find_keeps :
      (r : Command) (path at : String) (c : Contents)
      → is_set (get c.errors at) ≡ true
      → is_set (get (record_find types mounts r path c).errors at) ≡ true
  unfolding record_find
  record_find_keeps r path at c h =
      ground (arith, get-put c.errors path at (find_failure r), find_failure-is_set r)

  visit_keeps :
      (r : FindRow) (at : String) (c : Contents)
      → is_set (get c.errors at) ≡ true
      → is_set (get (visit_find types mounts r c).errors at) ≡ true
  unfolding visit_find
  visit_keeps r at c h = elim (Option-cases (item_path r.item)) [
    | inl e ↦ rw (e, visit_find) h
    | inr (path, e) ↦ rw (e, visit_find) (ground (arith, record_find_keeps r.result path at c h))
  ]

  collect_keeps :
      (rows : List FindRow) (at : String) (c : Contents)
      → is_set (get c.errors at) ≡ true
      → is_set (get (collect_contents types mounts rows c).errors at) ≡ true
  unfolding collect_contents
  collect_keeps [] at c h = h
  collect_keeps (r ∷ rows) at c h = collect_keeps rows at _ (visit_keeps r at c h)

  module _ (path : String) (given : (path == "") ≡ false)
      (plain : type_at types path ≡ directory) where
    visit_failed :
        (r : FindRow) (c : Contents)
        → item_path r.item ≡ some path
        → exited (some r.result) 0 ≡ false
        → is_set (get (visit_find types mounts r c).errors path) ≡ true
    unfolding record_find visit_find
    visit_failed r c e failed =
        rw (e, visit_find)
          (ground (
            arith,
            given,
            plain,
            get-put c.errors path path (find_failure r.result),
            ≡→eq path path,
            find_failure-is_set r.result,
          ))

    collect_failed :
        (rows : List FindRow) (r : FindRow) (c : Contents)
        → In r rows
        → item_path r.item ≡ some path
        → exited (some r.result) 0 ≡ false
        → is_set (get (collect_contents types mounts rows c).errors path) ≡ true
    unfolding collect_contents
    collect_failed [] r c m e failed = absurd m.1
    collect_failed (x ∷ rows) r c (inl same) e failed = collect_keeps rows path _ (
        visit_failed x c (ap (λ (f : FindRow). item_path f.item) same ∙ e)
          (ap (λ (f : FindRow). exited (some f.result) 0) same ∙ failed))
    collect_failed (x ∷ rows) r c (inr m) e failed = collect_failed rows r _ m e failed

not_blank_text : (t : String) → t ≢ "" → (t == "") ≡ false
not_blank_text t n = ground (arith, eq→≡ t "")

-- A directory that find could not list is never taken for an empty one: where a probe is built from
-- results in which the find of an allowed path did not exit with 0, and that path is a directory,
-- the verdict is `refuse`.
pub unlisted-refuse :
    (reader : Reader) (g : Registered) (p : Probe) (s : Setup) (path : String) (r : FindRow)
    → build_probe reader g ≡ some p
    → In path (allowed s)
    → path ≢ ""
    → type_at p.path_types path ≡ directory
    → In r g.find
    → item_path r.item ≡ some path
    → exited (some r.result) 0 ≡ false
    → (classify p s).state ≡ refuse
unlisted-refuse reader g p s path r built at given plain row e failed =
    (classify-refuse p s).1 λ disk own a.
      let c = comes_from reader g p built in
      let safe = All-In (PlaceIsSafe p s) path (allowed s) a.places_are_safe at in
      let found =
        collect_failed p.path_types p.mounts path (not_blank_text path given) plain g.find r _ row e
          failed in
      true-ne-false
        (sym found ∙ ap (λ (d : Dict String). is_set (get d path)) (sym c.find_error) ∙ safe.0)
  where
    true-ne-false : ◌≡◌ {A = Bool} true false → ⊥
    true-ne-false h = cc
