-- ===== src/Preflight/Sources.antt =====
-- roles/preflight/filter_plugins/preflight_ssh.py: the sources that a host accepts ssh from.
use ansible_install.Prelude.{
  String, Bool, true, false, Option, none, some, List, [], ◌∷◌, ◌++◌, if◌then◌else◌, ◌&&◌,
}
use ansible_install.Prelude.Text.{strip, cut}
use ansible_install.Prelude.Split.{words}
use ansible_install.Prelude.Int.{ℤ, pos, parse_int}
use ansible_install.Prelude.Canonical.{show_address}
use ansible_install.Prelude.Lists.{is_empty}
use ansible_install.Prelude.Json.{Json, str, truthy}
use ansible_install.Prelude.Repr.{str_of}
use ansible_install.Prelude.Ip.{Address, ip_address, ipv4_mapped}
use ansible_install.Prelude.Networks.{Network, ip_network, is_within}

abbrev pub loopback : List Json
loopback = str "127.0.0.0/8" ∷ str "::1/128" ∷ []

-- `str(value or "").strip()`
unfoldable pub given_text : Json → String
unfolding strip truthy str_of
given_text value = strip (if truthy value then str_of value else "")

unfoldable pub unzoned : String → String
unfolding cut
unzoned text = elim (cut b'%' text) [ none ↦ text | some (before, zone) ↦ before ]

abbrev pub unwrapped : Address → Address
unwrapped address = elim (ipv4_mapped address) [ none ↦ address | some mapped ↦ mapped ]

-- `_address`
unfoldable pub address_of : Json → Option Address
unfolding given_text unzoned ip_address
address_of value = elim (ip_address (unzoned (given_text value))) [
  | none ↦ none
  | some address ↦ some (unwrapped address)
]

-- `_network`
unfoldable pub network_of : Json → Option Network
unfolding given_text ip_network
network_of value = ip_network (given_text value)

-- The client of an ssh connection; an empty address and port 0 where they cannot be read.
pub record Connection : Type 0 where
  pub address : String
  pub port : ℤ

unfoldable pub shown : Option Address → String
unfolding show_address
shown none = ""
shown (some address) = show_address address

abbrev pub port_of : List String → ℤ
unfolding parse_int
port_of (address ∷ port ∷ rest) = elim (parse_int port) [ none ↦ pos 0 | some n ↦ n ]
port_of (address ∷ []) = pos 0
port_of [] = pos 0

abbrev pub client_of : List String → Option Address
unfolding address_of
client_of [] = none
client_of (address ∷ rest) = address_of (str address)

-- `preflight_ssh_connection`
unfoldable pub connection : Json → Connection
unfolding words truthy str_of shown address_of parse_int
connection value =
    let fields = words (if truthy value then str_of value else "") in
    record { address = shown (client_of fields); port = port_of fields }

unfoldable pub unparsed : List Json → List String
unfolding network_of str_of
unparsed [] = []
unparsed (e ∷ rest) =
    let later = unparsed rest in elim (network_of e) [ none ↦ str_of e ∷ later | some n ↦ later ]

abbrev pub same_version : Bool → Bool → Bool
same_version true six = six
same_version false six = if six then false else true

-- One round of the loop over the entries.
unfoldable pub accepts : Address → Option Network → Bool
unfolding is_within
accepts address none = false
accepts address (some n) = same_version n.is_six address.is_six && is_within address n

unfoldable pub accepted_by : Address → List Json → Bool
unfolding accepts network_of
accepted_by address [] = false
accepted_by address (e ∷ rest) =
    if accepts address (network_of e) then true else accepted_by address rest

abbrev pub accepts_from : Option Address → List Json → Bool
unfolding accepted_by
accepts_from none entries = false
accepts_from (some address) entries = accepted_by address entries

unfoldable pub covered : Json → List Json → List Json → Bool
unfolding address_of accepted_by
covered source allow_from also =
    if is_empty allow_from
    then true
    else accepts_from (address_of source) (allow_from ++ (also ++ loopback))
