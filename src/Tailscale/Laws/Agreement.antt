-- ===== src/Tailscale/Laws/Agreement.antt =====
-- roles/tailscale/filter_plugins/tailscale.py: the comparison finds no difference exactly if the
-- node agrees with the flags.
use ansible_install.Prelude.{
  ◌≡◌, refl, sym, ap, ◌∙◌, ◌↔◌, String, true, false, Option, some, List, [], ◌==◌, arith,
}
use mathlib.Core.Path.{subst}
use ansible_install.Prelude.Split.{mem}
use ansible_install.Prelude.Lists.{All, joined-nil}
use ansible_install.Prelude.Dict.{Dict, get}
use ansible_install.Prelude.Json.{Fields, value_of}
use ansible_install.Tailscale.Flags.{
  bool_flags, StringFlag, hostname, operator, string_flags, bool_names, string_names, ignored_flags,
  Flags,
}
use ansible_install.Tailscale.Settings.{Problem, text_pref, wanted_text}
use ansible_install.Tailscale.Routes.{flag_or}
use ansible_install.Tailscale.Modes.{pop_all}
use ansible_install.Tailscale.Compare.{
  network_names, network_parts, network_problems, parts, compare_with,
}
use ansible_install.Tailscale.Laws.Popping.{get-pop_all, mem-All, pop_all-nil, pop_all-append}
use ansible_install.Tailscale.Laws.Settings.{
  Apart, login_problems-nil, positional_problems-nil, bool_problems-nil, text_problems-nil,
  control_problems-nil,
}
use ansible_install.Tailscale.Laws.Network.{
  routes_part-nil, tags_part-nil, snat_problems-nil, netfilter_problems-nil, exit_problems-nil,
  default_problems-nil, unknown_problems-nil,
}
use ansible_install.Tailscale.Laws.Spec.{known_names, HasNetwork, Agrees}

bool_names-Apart : Apart bool_names
unfolding mem ◌==◌
bool_names-Apart = (refl, (refl, (refl, (refl, (refl, tt)))))

string_names-Apart : Apart string_names
unfolding mem ◌==◌
string_names-Apart = (refl, (refl, tt))

some_nil : (xs : List Problem) → (some xs ≡ some []) ↔ (xs ≡ [])
some_nil xs = ground arith

module _ (prefs : Fields) (flags : Dict String) (tags : List String) where
  abbrev Unread : Type 0
  Unread = pop_all ignored_flags (pop_all network_names flags) ≡ []

  network_problems-nil :
      (network_problems prefs flags tags ≡ some []) ↔ (HasNetwork prefs flags tags × Unread)
  unfolding network_problems
  network_problems-nil = (
    λ h.
        let (
          control,
          (routes, (snat, (netfilter, (tagged, (exit_node, (defaults, (unread, _))))))),
        ) =
          (joined-nil (network_parts prefs flags tags)).0 h in
        (
          record {
            control = (control_problems-nil _ _).0 control;
            routes = (routes_part-nil _ _ _).0 routes;
            snat = (snat_problems-nil _ _).0 ((some_nil _).0 snat);
            netfilter = (netfilter_problems-nil _ _).0 ((some_nil _).0 netfilter);
            tagged = (tags_part-nil _ _).0 tagged;
            exit_node = (exit_problems-nil _ _).0 ((some_nil _).0 exit_node);
            defaults = (default_problems-nil _ _).0 ((some_nil _).0 defaults);
          },
          (unknown_problems-nil _).0 ((some_nil _).0 unread),
        ),
    λ (a, unread). (joined-nil (network_parts prefs flags tags)).1 (
      (control_problems-nil _ _).1 a.control,
      (
        (routes_part-nil _ _ _).1 a.routes,
        (
          ap some ((snat_problems-nil _ _).1 a.snat),
          (
            ap some ((netfilter_problems-nil _ _).1 a.netfilter),
            (
              (tags_part-nil _ _).1 a.tagged,
              (
                ap some ((exit_problems-nil _ _).1 a.exit_node),
                (
                  ap some ((default_problems-nil _ _).1 a.defaults),
                  (ap some ((unknown_problems-nil _).1 unread), tt),
                ),
              ),
            ),
          ),
        ),
      ),
    ),
  )

-- The network settings are read through these names alone.
module _ (prefs : Fields) (tags : List String) (d e : Dict String)
    (same : (k : String) → mem k network_names ≡ true → get d k ≡ get e k) where
  HasNetwork-same : HasNetwork prefs d tags → HasNetwork prefs e tags
  unfolding mem ◌==◌
  HasNetwork-same a = record {
    control = rw (← same "login-server" refl) a.control;
    routes =
        rw (← same "advertise-routes" refl, flag_or)
          (rw (← same "advertise-exit-node" refl, flag_or) a.routes);
    snat = rw (← same "snat-subnet-routes" refl, flag_or) a.snat;
    netfilter = rw (← same "netfilter-mode" refl, flag_or) a.netfilter;
    tagged = rw (← same "advertise-tags" refl, flag_or) a.tagged;
    exit_node = rw (← same "exit-node" refl) a.exit_node;
    defaults = a.defaults;
  }

module _ (prefs : Fields) (flags : Flags) (tags : List String) where
  abbrev left : Dict String
  left = pop_all string_names (pop_all bool_names flags.named)

  get-left : (k : String) → mem k network_names ≡ true → get left k ≡ get flags.named k
  unfolding mem ◌==◌
  get-left k h =
      get-pop_all string_names (pop_all bool_names flags.named) k (
        mem-All (λ x. mem x string_names ≡ false) k network_names h
          (refl, (refl, (refl, (refl, (refl, (refl, (refl, tt))))))))
      ∙ get-pop_all bool_names flags.named k (
          mem-All (λ x. mem x bool_names ≡ false) k network_names h
            (refl, (refl, (refl, (refl, (refl, (refl, (refl, tt))))))))

  Unread-known :
      (pop_all ignored_flags (pop_all network_names left) ≡ [])
      ↔ All (λ p. mem p.0 known_names ≡ true) flags.named
  Unread-known =
      let (there, back) = pop_all-nil known_names flags.named in
      (λ h. there (in_turn ∙ h), λ a. sym in_turn ∙ back a)
    where
      in_turn : pop_all known_names flags.named ≡ pop_all ignored_flags (pop_all network_names left)
      in_turn =
          pop_all-append bool_names _ flags.named
          ∙ pop_all-append string_names _ (pop_all bool_names flags.named)
          ∙ pop_all-append network_names ignored_flags left

  abbrev HasText : StringFlag → Option String → Type 0
  HasText f o = text_pref (value_of prefs f.key) ≡ wanted_text f o

  names-left :
      All (λ f. HasText f (get (pop_all bool_names flags.named) f.flag)) string_flags
      ↔ All (λ f. HasText f (get flags.named f.flag)) string_flags
  unfolding mem ◌==◌
  names-left =
      let h = get-pop_all bool_names flags.named "hostname" refl in
      let o = get-pop_all bool_names flags.named "operator" refl in
      (
        λ (a, (b, _)). (subst (HasText hostname) h a, (subst (HasText operator) o b, tt)),
        λ (a, (b, _)).
            (subst (HasText hostname) (sym h) a, (subst (HasText operator) (sym o) b, tt)),
      )

  -- The node and the flags show no difference exactly if they agree.
  pub compare_with-Agrees : (compare_with prefs flags tags ≡ some []) ↔ Agrees prefs flags tags
  unfolding compare_with
  compare_with-Agrees = (
    λ h.
        let (logged_in, (only_flags, (switches, (names, (network, _))))) =
          (joined-nil (parts prefs flags tags)).0 h in
        let (a, unread) = (network_problems-nil prefs left tags).0 network in
        record {
          logged_in = (login_problems-nil prefs).0 ((some_nil _).0 logged_in);
          only_flags = (positional_problems-nil flags.positional).0 ((some_nil _).0 only_flags);
          switches =
              (bool_problems-nil prefs flags.named bool_flags bool_names-Apart).0
                ((some_nil _).0 switches);
          names = names-left.0 (
              (text_problems-nil prefs (pop_all bool_names flags.named) string_flags
                  string_names-Apart).0
                ((some_nil _).0 names));
          network = HasNetwork-same prefs tags left flags.named get-left a;
          known = Unread-known.0 unread;
        },
    λ a. (joined-nil (parts prefs flags tags)).1 (
      ap some ((login_problems-nil prefs).1 a.logged_in),
      (
        ap some ((positional_problems-nil flags.positional).1 a.only_flags),
        (
          ap some ((bool_problems-nil prefs flags.named bool_flags bool_names-Apart).1 a.switches),
          (
            ap some (
                (text_problems-nil prefs (pop_all bool_names flags.named) string_flags
                    string_names-Apart).1
                  (names-left.1 a.names)),
            (
              (network_problems-nil prefs left tags).1 (
                HasNetwork-same prefs tags flags.named left (λ k h. sym (get-left k h)) a.network,
                Unread-known.1 a.known,
              ),
              tt,
            ),
          ),
        ),
      ),
    ),
  )
