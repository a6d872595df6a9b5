-- ===== src/Tailscale/Laws/Filters.antt =====
-- roles/tailscale/filter_plugins/tailscale.py: `tailscale_prefs_problems` and `tailscale_set_args`.
use ansible_install.Prelude.{
  String, Option, none, some, List, [], ◌∷◌, ◌≡◌, refl, ap, ◌∙◌, ◌↔◌, arith,
}
use ansible_install.Prelude.Json.{Json, null, bool, num, str, arr, obj, Fields}
use ansible_install.NodeStorage.Paths.{text_or}
use ansible_install.Tailscale.Flags.{Flags, parse_args}
use ansible_install.Tailscale.Settings.{Problem}
use ansible_install.Tailscale.Compare.{
  compare_with, compare_document, messages, compare, prefs_problems, SetArgs, set_of, manual_of,
  sorted_out, set_args,
}
use ansible_install.Tailscale.Laws.Spec.{Agrees}
use ansible_install.Tailscale.Laws.Agreement.{compare_with-Agrees}

-- Without a document, or with one that is no object, there is a problem.
compare_document-nil :
    (doc : Option Json) (flags : Option Flags) (tags : List String)
    → compare_document doc flags tags ≡ some []
    → (p : Fields) × (f : Flags) × (doc ≡ some (obj p))
      × (flags ≡ some f)
      × (compare_with p f tags ≡ some [])
unfolding compare_document
compare_document-nil (some (obj p)) (some f) tags h = (p, f, refl, refl, h)
compare_document-nil (some (obj p)) none tags h = absurd (ground arith)
compare_document-nil none flags tags h = absurd (ground arith)
compare_document-nil (some null) flags tags h = absurd (ground arith)
compare_document-nil (some (bool b)) flags tags h = absurd (ground arith)
compare_document-nil (some (num n)) flags tags h = absurd (ground arith)
compare_document-nil (some (str s)) flags tags h = absurd (ground arith)
compare_document-nil (some (arr xs)) flags tags h = absurd (ground arith)

-- What `tailscale debug prefs` printed and the role's flags can be read, and they agree.
pub record IsAgreed (loads : String → Option Json) (prefs_stdout up_args : Option String)
    (tags : List String) : Type 0 where
  pub prefs : Fields
  pub flags : Flags
  pub printed : loads (text_or prefs_stdout "") ≡ some (obj prefs)
  pub parsed : parse_args up_args ≡ some flags
  pub agrees : Agrees prefs flags tags

messages-nil : (found : Option (List Problem)) → (messages found ≡ some []) ↔ (found ≡ some [])
unfolding messages
messages-nil none = (λ h. absurd (ground arith), λ h. absurd (ground arith))
messages-nil (some []) = (λ h. refl, λ h. refl)
messages-nil (some (p ∷ found)) = (λ h. absurd (ground arith), λ h. absurd (ground arith))

abbrev pub nothing_to_set : SetArgs
nothing_to_set = record { set = []; manual = [] }

-- Each problem is listed on one of the two sides.
sides-nil : (found : List Problem) → set_of found ≡ [] → manual_of found ≡ [] → found ≡ []
unfolding set_of manual_of
sides-nil [] h k = refl
sides-nil (p ∷ found) h k = absurd (ground arith)

sorted_out-nil :
    (found : Option (List Problem)) → (sorted_out found ≡ some nothing_to_set) ↔ (found ≡ some [])
unfolding sorted_out set_of manual_of
sorted_out-nil none = (λ h. absurd (ground arith), λ h. absurd (ground arith))
sorted_out-nil (some found) =
    (λ h. ap some (sides-nil found (ground arith) (ground arith)), λ h. ap sorted_out h)

module _ (loads : String → Option Json) (prefs_stdout up_args : Option String)
    (tags : List String) where
  compare-IsAgreed :
      (compare loads prefs_stdout up_args tags ≡ some []) ↔ IsAgreed loads prefs_stdout up_args tags
  unfolding compare
  compare-IsAgreed = (
    λ h.
        let (p, f, printed, parsed, e) =
          compare_document-nil (loads (text_or prefs_stdout "")) (parse_args up_args) tags h in
        record {
          prefs = p;
          flags = f;
          printed = printed;
          parsed = parsed;
          agrees = (compare_with-Agrees p f tags).0 e;
        },
    λ c.
        ap (λ d. compare_document d (parse_args up_args) tags) c.printed
        ∙ ap (λ f. compare_document (some (obj c.prefs)) f tags) c.parsed
        ∙ (compare_with-Agrees c.prefs c.flags tags).1 c.agrees,
  )

  -- Both filters report that the node and the flags agree, the one without a problem and the
  -- other with nothing to set and nothing to do by hand, exactly if the printed preferences are
  -- a JSON object, the flags can be parsed, and each setting has the value that the flags mean.
  pub prefs_problems-IsAgreed :
      ((prefs_problems loads prefs_stdout up_args tags ≡ some [])
        ↔ IsAgreed loads prefs_stdout up_args tags)
      × ((set_args loads prefs_stdout up_args tags ≡ some nothing_to_set)
          ↔ IsAgreed loads prefs_stdout up_args tags)
  unfolding prefs_problems set_args
  prefs_problems-IsAgreed =
      let (there, back) = compare-IsAgreed in
      let found = compare loads prefs_stdout up_args tags in
      (
        (λ h. there ((messages-nil found).0 h), λ c. (messages-nil found).1 (back c)),
        (λ h. there ((sorted_out-nil found).0 h), λ c. (sorted_out-nil found).1 (back c)),
      )
