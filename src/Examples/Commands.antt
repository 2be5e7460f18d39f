-- ===== src/Examples/Commands.antt =====
-- One URL of the boundary, with a parser that knows only it, and a supervisor of a child.
use agents_net.Base.{◌≡◌, refl, Option, some, [], ◌∷◌}
use agents_net.Base.Bytes.{Bytes, codes, bytes_eq, cut}
use agents_net.Base.Decimal.{parse_uint, parse_digits}
use agents_net.Base.Result.{ok}
use agents_net.Command.{Url, over_vsock, parse_vsock, boundary_dialer}
use agents_net.Command.Child.{sigchld, fatal, exited, signaled, dies, arrives, returned, run_child}
use agents_net.Command.Child.Supervised.{run_child-returned}
use agents_net.Command.Vsock.{Reaches, boundary_dialer-Reaches}

abbrev parse : Bytes → Option Url
parse url = some (record { scheme = codes "vsock"; host = codes "2:10000"; path = codes "" })

vsock_dialer : boundary_dialer parse (codes "vsock://2:10000") ≡ ok (over_vsock (codes "2:10000"))
unfolding bytes_eq cut parse_uint parse_digits parse_vsock boundary_dialer
vsock_dialer = refl

boundary_dialer-Reaches_example :
    Reaches (parse (codes "vsock://2:10000")) (over_vsock (codes "2:10000"))
boundary_dialer-Reaches_example =
    boundary_dialer-Reaches parse (codes "vsock://2:10000") (over_vsock (codes "2:10000"))
      vsock_dialer

-- An orphan and then the child 5 die, one SIGCHLD tells of both, and a signal was sent on.
run_child-returned_example :
    run_child 5
      (dies (record { pid = 9; status = exited 1 })
        ∷ dies (record { pid = 5; status = signaled 15 })
        ∷ arrives (fatal 15)
        ∷ arrives sigchld
        ∷ [])
      []
      []
    ≡ returned 143 (15 ∷ [])
run_child-returned_example =
    run_child-returned 5 (dies (record { pid = 9; status = exited 1 }) ∷ [])
      (arrives (fatal 15) ∷ []) [] (signaled 15) (refl, tt) (tt, tt)
