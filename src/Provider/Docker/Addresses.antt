-- ===== src/Provider/Docker/Addresses.antt =====
-- provider/docker/docker.go: the address and the port of a container.
use traefik.Prelude.{
  ◌≢◌, ℕ, false, none, some, List, [], ◌∷◌, ◌++◌, map, Str, codes, str_eq, str_eq_iff,
  if◌then◌else◌, All, ◌≡◌, refl, ap, subst, inl, inr, Bool-cases, arith,
}
use mathlib.Core.Option.{get_or}
use traefik.Text.{to_lower, lower}
use traefik.Provider.Docker.{
  Provider, DockerData, get_port, bound_ip, labelled_ip, first_ip, get_ip_address,
}

abbrev rest_of : Str → Str
rest_of [] = []
rest_of (c ∷ s) = s

first_of : Str → ℕ
first_of [] = 0
first_of (c ∷ s) = c

-- The second character of what follows is a capital letter, so the whole is not in lower case.
not_lower :
    (port suffix : Str)
    → first_of (rest_of (map lower suffix)) ≢ first_of (rest_of suffix)
    → map lower (port ++ suffix) ≢ port ++ suffix
not_lower [] suffix n e = n (ap (λ s. first_of (rest_of s)) e)
not_lower (c ∷ port) suffix n e = not_lower port suffix n (ap rest_of e)

IsLower : Str → Type 0
IsLower s = to_lower s ≡ s

differs :
    (net_port port suffix : Str)
    → IsLower net_port
    → first_of (rest_of (map lower suffix)) ≢ first_of (rest_of suffix)
    → str_eq net_port (port ++ suffix) ≡ false
unfolding IsLower to_lower
differs net_port port suffix l n = elim (Bool-cases (str_eq net_port (port ++ suffix))) [
  | inr d ↦ d
  | inl y ↦
      let same : net_port ≡ port ++ suffix = (str_eq_iff _ _).0 y in
      absurd (not_lower port suffix n (subst (λ s. map lower s ≡ s) same l))
]

module _ (sort_ports : List Str → List Str) (port_text : Str → Str) where
  bound_ip_lower :
      (port : Str) (ports : List (Str × List Str))
      → All (λ e. to_lower e.0 ≡ e.0) ports
      → bound_ip sort_ports port_text port ports ≡ none
  unfolding bound_ip IsLower first_of
  bound_ip_lower port [] h = refl
  bound_ip_lower port ((net_port, bindings) ∷ rest) (l, h) =
      let tcp : str_eq net_port (port ++ codes "/TCP") ≡ false =
        differs net_port port (codes "/TCP") l (λ e. omega arith) in
      let udp : str_eq net_port (port ++ codes "/UDP") ≡ false =
        differs net_port port (codes "/UDP") l (λ e. omega arith) in
      rw (bound_ip, tcp, udp) (bound_ip_lower port rest h)

  -- Where the names of a container's ports are in lower case, as in `80/tcp`, the option to use the
  -- address of the bound port has no effect on its address.
  pub get_ip_address_unbound :
      (p : Provider) (container : DockerData)
      → All (λ e. to_lower e.0 ≡ e.0) container.network_settings.ports
      → get_ip_address sort_ports port_text p container
        ≡ get_ip_address sort_ports port_text (record p { use_bind_port_ip = false }) container
  unfolding get_ip_address
  get_ip_address_unbound p container h =
      let port = get_port sort_ports port_text container in
      let unbound = bound_ip_lower port container.network_settings.ports h in
      let chosen : (if p.use_bind_port_ip
            then bound_ip sort_ports port_text port container.network_settings.ports
            else none)
          ≡ none =
        elim (Bool-cases p.use_bind_port_ip) [ inl y ↦ rw y unbound | inr n ↦ rw n refl ] in
      ap
        (λ o. elim (labelled_ip sort_ports port_text container) [
          | some addr ↦ addr
          | none ↦
              if str_eq container.network_settings.network_mode (codes "host")
              then codes "127.0.0.1"
              else get_or o (first_ip sort_ports port_text container.network_settings.networks)
        ])
        chosen
