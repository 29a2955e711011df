-- ===== src/Tests/Visits.antt =====
-- A client that registers over the socket and leaves.
use yijinjing_lite.Prelude.{ℕ, ◌≡◌, refl, true, false, some, codes, bytes_eq, arith}
use yijinjing_lite.Map.{find, bytes_key, nat_key}
use yijinjing_lite.Comm.{comm_size}
use yijinjing_lite.Memory.{Memory}
use yijinjing_lite.Engine.Clients.{reg_client}
use yijinjing_lite.Socket.{register_type, client_exit, put_request, process_msg, client_response}
use yijinjing_lite.Socket.Clients.{code_of, client_response-process_msg}
use yijinjing_lite.Socket.Visit.{process_msg-visit}
use yijinjing_lite.World.Effect.{ok}
use yijinjing_lite.World.{World}
use yijinjing_lite.Tests.Fixtures.{os, zeros}
use yijinjing_lite.Tests.Clients.{free}

-- The world after the registration of a second client, "d".
abbrev enrolled : World
enrolled = (reg_client os (codes "d") 42 true free).1

client_response-process_msg_example :
    (r : Memory) × (process_msg os
        (λ n. codes "{}")
        (7, 7)
        (put_request zeros (register_type true) (codes "d") 42 0)
        free
      ≡ (ok r, enrolled))
    × (client_response (register_type true) r
        ≡ some (code_of os (codes "d") 42 free, codes "comm", comm_size))
unfolding reg_client find bytes_eq
client_response-process_msg_example =
    client_response-process_msg os (λ n. codes "{}") (7, 7) zeros (codes "d") (omega arith)
      ((λ e. omega (arith, e)), tt) true 42 free enrolled (some (code_of os (codes "d") 42 free))
      (omega arith) refl (omega arith)
      (
        (λ e. omega (arith, e)),
        ((λ e. omega (arith, e)), ((λ e. omega (arith, e)), ((λ e. omega (arith, e)), tt))),
      )

process_msg-visit_example :
    (h : ℕ) × (r r' : Memory) × (u v : World) × (process_msg os
        (λ n. codes "{}")
        (7, 7)
        (put_request zeros (register_type false) (codes "d") 77 0)
        free
      ≡ (ok r, u))
    × (client_response (register_type false) r ≡ some (h, codes "comm", comm_size))
    × (process_msg os (λ n. codes "{}") (7, 7) (put_request zeros client_exit (codes "d") 0 h) u
        ≡ (ok r', v))
    × (find v.engine.client_journals (codes "c") ≡ find free.engine.client_journals (codes "c"))
    × (find v.engine.pid_client 77 ≡ find free.engine.pid_client 77)
    × (v.comm ≡ free.comm)
unfolding find bytes_eq
process_msg-visit_example =
    process_msg-visit os (λ n. codes "{}") (7, 7) zeros (codes "d") (omega arith)
      ((λ e. omega (arith, e)), tt) false 77 free (codes "c") 77 (omega arith) refl
      (λ names e. ground (arith, e)) (omega arith)
      (
        (λ e. omega (arith, e)),
        ((λ e. omega (arith, e)), ((λ e. omega (arith, e)), ((λ e. omega (arith, e)), tt))),
      )
