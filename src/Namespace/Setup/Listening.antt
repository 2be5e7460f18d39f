-- ===== src/Namespace/Setup/Listening.antt =====
-- The sockets that New of sdk/pkg/netnsproxy/proxy_linux.go listens on.
use mathlib.Core.List.{append-nil, append_assoc, map-append}
use agents_net.Base.{
  ℕ, ◌%◌, ◌^◌, ◌<◌, ◌≡◌, refl, sym, ap, ◌∙◌, inl, inr, true, Option, none, some, List, [], ◌∷◌,
  ◌++◌, map, arith, All, All-append, All-map, any, any-append, Option-cases,
}
use agents_net.Firewall.{Ports}
use agents_net.Namespace.Routes.{InetFamily, inet, inet6, family_eq}
use agents_net.Namespace.Setup.{
  Transport, stream, packet, Socket, Proxy, Outside, nfproto_of, ports_of, Host, open_tcp, open_udp,
  listen_family, put_ports, listen_on, listen_families, transport_eq, socket_eq, owns, close,
}

family_eq_refl : (f : InetFamily) → family_eq f f ≡ true
family_eq_refl inet = refl
family_eq_refl inet6 = refl

transport_eq_refl : (t : Transport) → transport_eq t t ≡ true
transport_eq_refl stream = refl
transport_eq_refl packet = refl

socket_eq_refl : (s : Socket) → socket_eq s s ≡ true
socket_eq_refl s = ground (arith, family_eq_refl s.family, transport_eq_refl s.transport)

-- Close takes every open socket of the host.
abbrev pub IsOwned : Host → Type 0
IsOwned h = All (λ s. owns h.proxy s ≡ true) h.open_sockets

pub close-IsOwned : (p : Proxy) (l : List Socket) → All (λ s. owns p s ≡ true) l → close p l ≡ []
close-IsOwned p [] h = refl
close-IsOwned p (s ∷ l) (o, h) = rw o (close-IsOwned p l h)

open_tcp-IsOwned :
    (family : InetFamily) (port : ℕ) (h : Host) → IsOwned h → IsOwned (open_tcp family port h)
unfolding open_tcp
open_tcp-IsOwned family port h o =
    let new : Socket = record { transport = stream; family = family; port = port } in
    All-append (λ s. owns (open_tcp family port h).proxy s ≡ true) h.open_sockets (new ∷ [])
      (All-map h.open_sockets (λ (s : Socket) owned. kept new s owned) o) (here new, tt)
  where
    kept :
        (new s : Socket)
        → owns h.proxy s ≡ true
        → any (socket_eq s) ((h.proxy.tcp ++ new ∷ []) ++ h.proxy.udp) ≡ true
    kept new s owned = ground (
      arith,
      any-append (socket_eq s) (h.proxy.tcp ++ new ∷ []) h.proxy.udp,
      any-append (socket_eq s) h.proxy.tcp (new ∷ []),
      any-append (socket_eq s) h.proxy.tcp h.proxy.udp,
    )

    here : (new : Socket) → any (socket_eq new) ((h.proxy.tcp ++ new ∷ []) ++ h.proxy.udp) ≡ true
    here new = ground (
      arith,
      any-append (socket_eq new) (h.proxy.tcp ++ new ∷ []) h.proxy.udp,
      any-append (socket_eq new) h.proxy.tcp (new ∷ []),
      socket_eq_refl new,
    )

open_udp-IsOwned :
    (family : InetFamily) (port : ℕ) (h : Host) → IsOwned h → IsOwned (open_udp family port h)
unfolding open_udp
open_udp-IsOwned family port h o =
    let new : Socket = record { transport = packet; family = family; port = port } in
    All-append (λ s. owns (open_udp family port h).proxy s ≡ true) h.open_sockets (new ∷ [])
      (All-map h.open_sockets (λ (s : Socket) owned. kept new s owned) o) (here new, tt)
  where
    kept :
        (new s : Socket)
        → owns h.proxy s ≡ true
        → any (socket_eq s) (h.proxy.tcp ++ (h.proxy.udp ++ new ∷ [])) ≡ true
    kept new s owned = ground (
      arith,
      any-append (socket_eq s) h.proxy.tcp (h.proxy.udp ++ new ∷ []),
      any-append (socket_eq s) h.proxy.udp (new ∷ []),
      any-append (socket_eq s) h.proxy.tcp h.proxy.udp,
    )

    here : (new : Socket) → any (socket_eq new) (h.proxy.tcp ++ (h.proxy.udp ++ new ∷ [])) ≡ true
    here new = ground (
      arith,
      any-append (socket_eq new) h.proxy.tcp (h.proxy.udp ++ new ∷ []),
      any-append (socket_eq new) h.proxy.udp (new ∷ []),
      socket_eq_refl new,
    )

-- The family and port that the rules name for a socket, and for a listener.
abbrev pub endpoint : Socket → ℕ × ℕ
endpoint s = (nfproto_of s.family, s.port % 2 ^ 16)

abbrev pub tcp_endpoint : Ports → ℕ × ℕ
tcp_endpoint l = (l.family, l.tcp)

abbrev pub udp_endpoint : Ports → ℕ × ℕ
udp_endpoint l = (l.family, l.udp)

-- The host after some families, with the ports handed to the rules.
pub record IsGrown (h h' : Host) (fs : List InetFamily) (ls : List Ports) : Type 0 where
  pub config : h'.proxy.config ≡ h.proxy.config
  pub slots : h'.proxy.slots ≡ h.proxy.slots
  pub tcp : map endpoint h'.proxy.tcp ≡ map endpoint h.proxy.tcp ++ map tcp_endpoint ls
  pub udp : map endpoint h'.proxy.udp ≡ map endpoint h.proxy.udp ++ map udp_endpoint ls
  pub of_families : map (λ l. l.family) ls ≡ map nfproto_of fs
  pub small : All (λ l. (l.tcp < 2 ^ 16) × (l.udp < 2 ^ 16)) ls

opened-IsGrown :
    (f : InetFamily) (t u : ℕ) (h : Host)
    → IsGrown h (open_udp f u (open_tcp f t h)) (f ∷ []) (ports_of f t u ∷ [])
unfolding open_tcp open_udp
opened-IsGrown f t u h = record {
  config = refl;
  slots = refl;
  tcp = map-append endpoint h.proxy.tcp _;
  udp = map-append endpoint h.proxy.udp _;
  of_families = refl;
  small = ((omega arith, omega arith), tt);
}

more_families :
    (h h' h'' : Host) (f : InetFamily) (fs : List InetFamily) (l : Ports) (ls : List Ports)
    → IsGrown h h' (f ∷ []) (l ∷ [])
    → IsGrown h' h'' fs ls
    → IsGrown h h'' (f ∷ fs) (l ∷ ls)
more_families h h' h'' f fs l ls g g' = record {
  config = g'.config ∙ g.config;
  slots = g'.slots ∙ g.slots;
  tcp =
      g'.tcp
      ∙ ap (λ x. x ++ map tcp_endpoint ls) g.tcp
      ∙ append_assoc (map endpoint h.proxy.tcp) (tcp_endpoint l ∷ []) (map tcp_endpoint ls);
  udp =
      g'.udp
      ∙ ap (λ x. x ++ map udp_endpoint ls) g.udp
      ∙ append_assoc (map endpoint h.proxy.udp) (udp_endpoint l ∷ []) (map udp_endpoint ls);
  of_families = cc;
  small = (g.small.0, g'.small);
}

abbrev pub IsListening : Host → List InetFamily → Host × Option (List Ports) → Type 0
IsListening h fs (h', none) = IsOwned h'
IsListening h fs (h', some ls) = IsOwned h' × IsGrown h h' fs ls

abbrev IsListeningOn : Host → InetFamily → Host × Option Ports → Type 0
IsListeningOn h f (h', none) = IsOwned h'
IsListeningOn h f (h', some l) = IsOwned h' × IsGrown h h' (f ∷ []) (l ∷ [])

listen_family-IsListening :
    (o : Outside) (f : InetFamily) (h : Host) → IsOwned h → IsListeningOn h f (listen_family o f h)
unfolding listen_family
listen_family-IsListening o f h owned = elim (Option-cases (o.listen stream f)) [
  | inl refused ↦ rw (refused, listen_family) owned
  | inr (t, bound) ↦ elim (Option-cases (o.listen packet f)) [
    | inl refused ↦ rw (bound, listen_family, refused, listen_family) (open_tcp-IsOwned f t h owned)
    | inr (u, both) ↦
        rw (bound, listen_family, both, listen_family)
          (
            open_udp-IsOwned f u (open_tcp f t h) (open_tcp-IsOwned f t h owned),
            opened-IsGrown f t u h,
          )
  ]
]

pub listen_families-IsListening :
    (o : Outside) (fs : List InetFamily) (h : Host)
    → IsOwned h
    → IsListening h fs (listen_families o fs h)
unfolding listen_families
listen_families-IsListening o [] h owned = (
  owned,
  record {
    config = refl;
    slots = refl;
    tcp = sym (append-nil (map endpoint h.proxy.tcp));
    udp = sym (append-nil (map endpoint h.proxy.udp));
    of_families = refl;
    small = tt;
  },
)
listen_families-IsListening o (f ∷ fs) h owned =
    first (listen_family o f h) (listen_family-IsListening o f h owned)
      (λ h' owned'. listen_families-IsListening o fs h' owned')
  where
    rest :
        (l : Ports) (h' : Host) (r : Host × Option (List Ports))
        → IsGrown h h' (f ∷ []) (l ∷ [])
        → IsListening h' fs r
        → IsListening h (f ∷ fs) (put_ports l r)
    rest l h' (h'', none) g i = i
    rest l h' (h'', some ls) g (owned'', g') = (owned'', more_families h h' h'' f fs l ls g g')

    first :
        (r : Host × Option Ports)
        → IsListeningOn h f r
        → ((h' : Host) → IsOwned h' → IsListening h' fs (listen_families o fs h'))
        → IsListening h (f ∷ fs) (listen_on (listen_families o fs) r)
    first (h', none) i next = i
    first (h', some l) (owned', g) next = rest l h' (listen_families o fs h') g (next h' owned')
