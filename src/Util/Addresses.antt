-- ===== src/Util/Addresses.antt =====
-- pkg/util/ip.go: the public address of a client, the addresses of this server, and where an
-- address is. The network interfaces and what an HTTP request brings are parameters.
use jian_yu_server_lib.Base.{
  ◌≡◌, ◌⊎◌, refl, Bool, true, false, ◌||◌, not, Option, none, some, List, [], ◌∷◌, ◌++◌, All,
  if◌then◌else◌, Bool-cases, inl, inr, All-append,
}
use jian_yu_server_lib.Strings.{Str, str, str_eq, has_prefix, split, trim_space}
use package.jian_yu_server_lib.Util.Ip.{is_intranet}

-- The loop over the parts of X-Forwarded-For: the first that is not blank
unfoldable pub first_ip : List Str → Option Str
first_ip [] = none
first_ip (part ∷ parts) =
    let rest = first_ip parts in
    if str_eq (trim_space part) [] then rest else some (trim_space part)

-- GetClientPublicIP, from the headers X-Forwarded-For and X-Real-Ip and the address of the other
-- end; net.SplitHostPort is a parameter.
unfoldable pub get_client_public_ip : (Str → Option (Str × Str)) → Str → Str → Str → Str
get_client_public_ip split_host_port forwarded real remote =
    elim (first_ip (split forwarded b',' [])) [
      | some ip ↦ ip
      | none ↦
          if str_eq (trim_space real) []
          then elim (split_host_port (trim_space remote)) [ some (ip, port) ↦ ip | none ↦ [] ]
          else trim_space real
    ]

-- GetExternalIP: `none` is an error of the request.
unfoldable pub get_external_ip : (Str → Option Str) → Option Str
get_external_ip http_get = elim (http_get (str "https://ipw.cn/api/ip/myip")) [
  | none ↦ none
  | some body ↦ some (trim_space body)
]

-- An address of an interface: whether it is a loopback address, and its text if it is of IPv4;
-- `no_ip` is an address of another kind.
pub data Addr : Type 0 where
  ip_addr : Bool → Option Str → Addr
  no_ip : Addr

-- An interface; `addrs` is `none` where they cannot be read.
pub record Iface : Type 0 where
  pub up : Bool
  pub loopback : Bool
  pub name : Str
  pub addrs : Option (List Addr)

-- The loop over the addresses of an interface: what it adds to `ips`
unfoldable pub intranet_addrs : List Addr → List Str
intranet_addrs [] = []
intranet_addrs (no_ip ∷ addrs) = intranet_addrs addrs
intranet_addrs (ip_addr loopback none ∷ addrs) = intranet_addrs addrs
intranet_addrs (ip_addr true (some ip) ∷ addrs) = intranet_addrs addrs
intranet_addrs (ip_addr false (some ip) ∷ addrs) =
    let rest = intranet_addrs addrs in if is_intranet ip then ip ∷ rest else rest

-- Whether the loop passes over an interface
unfoldable pub is_skipped : Iface → Bool
is_skipped iface =
    not iface.up
    || iface.loopback
    || has_prefix iface.name (str "docker")
    || has_prefix iface.name (str "w-")

-- The loop over the interfaces; the flag is whether it ends by an error.
unfoldable pub intranet_loop : List Str → List Iface → List Str × Bool
intranet_loop ips [] = (ips, false)
intranet_loop ips (iface ∷ ifaces) =
    if is_skipped iface then intranet_loop ips ifaces else elim iface.addrs [
      | none ↦ (ips, true)
      | some addrs ↦ intranet_loop (ips ++ intranet_addrs addrs) ifaces
    ]

-- GetIntranetIP; the interfaces are `none` where they cannot be listed.
unfoldable pub get_intranet_ip : Option (List Iface) → List Str × Bool
get_intranet_ip none = ([], true)
get_intranet_ip (some ifaces) = intranet_loop [] ifaces

abbrev pub IsIntranet : Str → Type 0
IsIntranet ip = is_intranet ip ≡ true

intranet_addrs-IsIntranet : (addrs : List Addr) → All IsIntranet (intranet_addrs addrs)
unfolding intranet_addrs
intranet_addrs-IsIntranet [] = tt
intranet_addrs-IsIntranet (no_ip ∷ addrs) = intranet_addrs-IsIntranet addrs
intranet_addrs-IsIntranet (ip_addr loopback none ∷ addrs) = intranet_addrs-IsIntranet addrs
intranet_addrs-IsIntranet (ip_addr true (some ip) ∷ addrs) = intranet_addrs-IsIntranet addrs
intranet_addrs-IsIntranet (ip_addr false (some ip) ∷ addrs) =
    let rest = intranet_addrs-IsIntranet addrs in
    elim (Bool-cases (is_intranet ip)) [ inl e ↦ rw e (e, rest) | inr e ↦ rw e rest ]

-- Whether an interface that is not passed over has addresses that cannot be read
unfoldable pub any_fails : List Iface → Bool
any_fails [] = false
any_fails (iface ∷ ifaces) =
    let rest = any_fails ifaces in
    if is_skipped iface then rest else elim iface.addrs [ none ↦ true | some addrs ↦ rest ]

Option-split : (o : Option (List Addr)) → (o ≡ none) ⊎ ((addrs : List Addr) × (o ≡ some addrs))
Option-split none = inl refl
Option-split (some addrs) = inr (addrs, refl)

intranet_loop_lem :
    (ips : List Str) (ifaces : List Iface)
    → All IsIntranet ips
    → All IsIntranet (intranet_loop ips ifaces).0
      × ((intranet_loop ips ifaces).1 ≡ any_fails ifaces)
unfolding intranet_loop any_fails
intranet_loop_lem ips [] h = (h, refl)
intranet_loop_lem ips (iface ∷ ifaces) h = elim (Bool-cases (is_skipped iface)) [
  | inl e ↦ rw e (intranet_loop_lem ips ifaces h)
  | inr e ↦ elim (Option-split iface.addrs) [
    | inl unread ↦ rw (e, unread) (h, refl)
    | inr (addrs, read) ↦
        rw (e, read)
          (intranet_loop_lem (ips ++ intranet_addrs addrs) ifaces
            (All-append IsIntranet ips (intranet_addrs addrs) h (intranet_addrs-IsIntranet addrs)))
  ]
]

-- Every address that GetIntranetIP returns is one of the intranet, also where it ends by an error,
-- and it ends by one exactly if the interfaces cannot be listed, or one of those that are up, no
-- loopback and not of docker has addresses that cannot be read.
pub get_intranet_ip_lem :
    (ifaces : Option (List Iface))
    → All IsIntranet (get_intranet_ip ifaces).0
      × ((get_intranet_ip ifaces).1 ≡ elim ifaces [ none ↦ true | some is ↦ any_fails is ])
unfolding get_intranet_ip
get_intranet_ip_lem none = (tt, refl)
get_intranet_ip_lem (some ifaces) = intranet_loop_lem [] ifaces tt
