-- ===== src/Tests/Uplink.antt =====
-- The plan for router advertisements on concrete output of networkctl.
use ansible_install.Prelude.{
  ◌≡◌, ◌≢◌, refl, ◌↔◌, String, true, false, Option, none, some, List, [], ◌∷◌, ◌==◌,
}
use ansible_install.Prelude.Text.{has, ends_with}
use ansible_install.Prelude.Split.{mem, join, sorted}
use ansible_install.Prelude.Int.{pos, show_ℕ, show_ℤ}
use ansible_install.Prelude.Json.{
  Json, num, str, arr, obj, cons, nil, end, field, member, value_of, truthy,
}
use ansible_install.Prelude.Repr.{str_of}
use ansible_install.NodeStorage.Paths.{basename, text_or}
use ansible_install.NodeKernel.{
  first_named, link_record, networkd, sysctl, missing, Plan, Result, plan_file, plan_link,
  plan_data, uplink_ra,
}
use ansible_install.NodeKernel.Laws.Plans.{HasNetworkFile, uplink_ra-networkd, uplink_ra-basename}

abbrev link : Json
link = obj (
    field "Name" (str "eth0") (
      field "AdministrativeState" (str "configured")
        (field "NetworkFile" (str "/run/systemd/network/10-netplan-eth0.network") end)))

-- The parser of the tests knows the link alone, and in the list form.
abbrev loads : String → Option Json
unfolding ◌==◌
loads s = some (obj (field "Interfaces" (arr (cons (num (pos 3)) (cons link nil))) end))

abbrev printed : Result
printed = record { rc = some (pos 0); stdout = some "{...}" }

abbrev listed : Option (List String)
listed = some ("lo" ∷ "eth0" ∷ [])

unfoldable plan_of : Result → String → Option (List String) → Option Plan
unfolding uplink_ra plan_data plan_link plan_file link_record first_named basename text_or str_of
    truthy value_of member show_ℤ show_ℕ mem join sorted has ends_with ◌==◌
plan_of = uplink_ra loads

abbrev drop_in : Plan
drop_in = record {
  mode = networkd;
  network_file = "10-netplan-eth0.network";
  reason = "systemd-networkd manages eth0 with /run/systemd/network/10-netplan-eth0.network";
}

networkd_runs : plan_of printed "eth0" listed ≡ some drop_in
unfolding plan_of
networkd_runs = refl

missing_runs :
    plan_of printed "eth1" listed
    ≡ some (record {
      mode = missing;
      network_file = "";
      reason = "uplink_interface 'eth1' is not an interface on this host (it has: eth0, lo)";
    })
unfolding plan_of
missing_runs = refl

failed_runs :
    plan_of (record { rc = some (pos 1); stdout = none }) "eth0" none
    ≡ some (record {
      mode = sysctl;
      network_file = "";
      reason = "networkctl status failed (rc 1): networkd is not managing eth0";
    })
unfolding plan_of
failed_runs = refl

uplink_ra-networkd_example :
    ((plan : Plan) × (uplink_ra loads printed "eth0" listed ≡ some plan)
      × (plan.mode ≡ networkd)
      × (plan.network_file ≡ "10-netplan-eth0.network"))
    ↔ HasNetworkFile loads printed "eth0" listed "10-netplan-eth0.network"
uplink_ra-networkd_example =
    uplink_ra-networkd loads printed "eth0" listed "10-netplan-eth0.network"

uplink_ra-basename_example :
    (has b'/' drop_in.network_file ≡ false)
    × (ends_with drop_in.network_file ".network" ≡ true)
    × (drop_in.network_file ≢ ".network")
unfolding plan_of
uplink_ra-basename_example =
    uplink_ra-basename loads printed "eth0" listed drop_in networkd_runs refl
