-- ===== src/Gateway/Heard.antt =====
-- The connection of an agent that is heard, from the start of the gateway of
-- marlinspike/fleet/gateway/server.py on.
use net_discover.Prelude.{
  ℕ, ◌<◌, String, List, [], ◌∷◌, some, Bool, true, false, ◌≡◌, ◌≢◌, ◌∙◌, refl, sym, ap, arith, ◌==◌,
  ==_iff, str_eq_iff, str_eq_refl, find_where, Bool-cases, Option-cases, inl, inr,
}
use net_discover.Gateway.Frames.{Frame, FrameTurn, stop, go_on, serve_frame}
use net_discover.Gateway.Connections.{
  Phase, serving, leaving, marking, gone, Handler, GatewayServer, find_connection, del_connection,
  set_handler, close_writer, register_connection, with_phase, update, read_frame, is_current,
  finish_handler, clean_up,
}
use net_discover.Gateway.Current.{
  ServerEvent, connected, frame, hung_up, cleaned, marked, disconnect, push, reply_taken,
  server_step, run_server, is_serving, is_heard, uuid_of, IsCurrent, update-IsCurrent,
  find_connection-del, serve_frame-keeps, stopped, hang_up-IsCurrent, mark-IsCurrent,
  disconnect_agent-IsCurrent, push_command-IsCurrent, take_reply-IsCurrent,
}

current-find :
    (n : ℕ) (s : GatewayServer)
    → is_current n s ≡ true
    → find_connection (uuid_of (s.handlers n)) s.connections ≡ some n
unfolding is_current
current-find n s h = elim (Option-cases (find_connection (uuid_of (s.handlers n)) s.connections)) [
  | inl unknown ↦ absurd (ground (arith, h, unknown))
  | inr (k, known) ↦ known ∙ ap some ((==_iff k n).0 (ground (arith, h, known)))
]

find-here : (u : String) (k : ℕ) (cs : List (String × ℕ)) → find_connection u ((u, k) ∷ cs) ≡ some k
unfolding find_connection find_where
find-here u k cs = ground (arith, str_eq_refl u)

find-there :
    (u v : String) (k : ℕ) (cs : List (String × ℕ))
    → u ≢ v
    → find_connection v ((u, k) ∷ cs) ≡ find_connection v cs
unfolding find_connection find_where
find-there u v k cs apart = ground (arith, apart, str_eq_iff u v)

module _ (s : GatewayServer) (c : IsCurrent s) where
  read_frame-IsCurrent :
      (interval now : ℕ) (revoked : Bool) (f : Frame) (n : ℕ)
      → IsCurrent (read_frame interval now revoked f n s)
  unfolding read_frame
  read_frame-IsCurrent interval now revoked f n = go (s.handlers n).phase
    where
      turned :
          (t : FrameTurn)
          → serve_frame interval now revoked f (s.handlers n).conn ≡ t
          → IsCurrent (elim t as (λ _. GatewayServer) [
            | stop actions ↦ update n (with_phase leaving (s.handlers n)) s
            | go_on actions d ↦ update n (record (s.handlers n) { conn = d }) s
          ])
      turned (stop actions) e = stopped s c n (with_phase leaving (s.handlers n)) refl refl
      turned (go_on actions d) e =
          update-IsCurrent n (record (s.handlers n) { conn = d }) s
            (record {
              same = (serve_frame-keeps interval now revoked f (s.handlers n).conn e).0;
              heard = λ h.
                  ground
                    (arith, h, (serve_frame-keeps interval now revoked f (s.handlers n).conn e).1);
            })
            c

      go :
          (p : Phase)
          → IsCurrent (elim p as (λ _. GatewayServer) [
            | serving ↦ elim (serve_frame interval now revoked f (s.handlers n).conn) [
              | stop actions ↦ update n (with_phase leaving (s.handlers n)) s
              | go_on actions d ↦ update n (record (s.handlers n) { conn = d }) s
            ]
            | _ ↦ s
          ])
      go serving = turned (serve_frame interval now revoked f (s.handlers n).conn) refl
      go leaving = c
      go marking = c
      go gone = c

  -- The current connection takes its entry out, and is not heard any more.
  taken_out :
      (n : ℕ) (k : Handler)
      → find_connection (uuid_of (s.handlers n)) s.connections ≡ some n
      → is_serving k.phase ≡ false
      → IsCurrent (record s {
        connections = del_connection (uuid_of (s.handlers n)) s.connections;
        handlers = set_handler n k s.handlers;
      })
  unfolding set_handler
  taken_out n k known over m below = elim (Bool-cases (m == n)) [
    | inl this ↦ rw this (λ h. absurd (ground (arith, h, over)))
    | inr that ↦ rw that (λ h.
        find_connection-del (uuid_of (s.handlers n)) (uuid_of (s.handlers m)) s.connections (λ same.
          absurd (
            apart m n that
              (sym known ∙ ap (λ u. find_connection u s.connections) same ∙ c m below h)))
        ∙ c m below h)
  ]
    where
      apart : (i j : ℕ) → (i == j) ≡ false → some j ≢ some i
      apart i j differ e = ground (arith, e, differ, ==_iff i j)

  clean_up-IsCurrent : (n : ℕ) → IsCurrent (clean_up n s)
  unfolding clean_up finish_handler
  clean_up-IsCurrent n = go (s.handlers n).phase
    where
      go :
          (p : Phase)
          → IsCurrent (elim p as (λ _. GatewayServer) [
            | leaving ↦ finish_handler n (s.handlers n) s
            | _ ↦ s
          ])
      go serving = c
      go marking = c
      go gone = c
      go leaving = elim (Bool-cases (is_current n s)) [
        | inl current ↦ rw (finish_handler, current) (taken_out n _ (current-find n s current) refl)
        | inr replaced ↦ rw (finish_handler, replaced) (stopped s c n _ refl refl)
      ]

  -- A connection of the table that is heard after another has taken its agent's place.
  older_connection :
      (u : String) (n : ℕ)
      → n < s.next
      → is_heard (close_writer (find_connection u s.connections) s.handlers n) ≡ true
      → (uuid_of (close_writer (find_connection u s.connections) s.handlers n)
          ≡ uuid_of (s.handlers n))
        × ((u ≢ uuid_of (s.handlers n)) × (is_heard (s.handlers n) ≡ true))
  unfolding close_writer set_handler
  older_connection u n below = elim (Option-cases (find_connection u s.connections)) [
    | inl unknown ↦
        rw (unknown, close_writer)
          (λ h. (
            refl,
            (
              λ same. ground (
                arith,
                sym unknown ∙ ap (λ v. find_connection v s.connections) same ∙ c n below h,
              ),
              h,
            ),
          ))
    | inr (old, known) ↦
        rw (known, close_writer)
          (elim (Bool-cases (n == old)) [
            | inl this ↦ rw this (λ h. absurd (ground (arith, h)))
            | inr that ↦ rw that (λ h. (
              refl,
              (
                λ same. ground (
                  arith,
                  that,
                  ==_iff n old,
                  sym known ∙ ap (λ v. find_connection v s.connections) same ∙ c n below h,
                ),
                h,
              ),
            ))
          ])
  ]

  register_connection-IsCurrent : (u : String) → IsCurrent (register_connection u s)
  unfolding register_connection set_handler
  register_connection-IsCurrent u n below = elim (Bool-cases (n == s.next)) [
    | inl this ↦ rw this (λ h.
        find-here u s.next (del_connection u s.connections)
        ∙ ap some (sym ((==_iff n s.next).0 this)))
    | inr that ↦ rw that (λ h.
        let earlier : n < s.next = ground (arith, below, that, ==_iff n s.next) in
        let o = older_connection u n earlier h in
        ap (λ v. find_connection v ((u, s.next) ∷ del_connection u s.connections)) o.0
        ∙ find-there u (uuid_of (s.handlers n)) s.next (del_connection u s.connections) o.1.0
        ∙ find_connection-del u (uuid_of (s.handlers n)) s.connections o.1.0
        ∙ c n earlier o.1.1)
  ]

server_step-IsCurrent :
    (interval : ℕ) (e : ServerEvent) (s : GatewayServer)
    → IsCurrent s
    → IsCurrent (server_step interval e s)
unfolding server_step
server_step-IsCurrent interval (connected u) s c = register_connection-IsCurrent s c u
server_step-IsCurrent interval (frame now revoked f n) s c =
    read_frame-IsCurrent s c interval now revoked f n
server_step-IsCurrent interval (hung_up n) s c = hang_up-IsCurrent s c n
server_step-IsCurrent interval (cleaned n) s c = clean_up-IsCurrent s c n
server_step-IsCurrent interval (marked n) s c = mark-IsCurrent s c n
server_step-IsCurrent interval (disconnect u) s c = disconnect_agent-IsCurrent s c u
server_step-IsCurrent interval (push u) s c = push_command-IsCurrent s c u
server_step-IsCurrent interval (reply_taken n id) s c = take_reply-IsCurrent s c n id

run_server-IsCurrent :
    (interval : ℕ) (es : List ServerEvent) (s : GatewayServer)
    → IsCurrent s
    → IsCurrent (run_server interval es s)
unfolding run_server
run_server-IsCurrent interval [] s c = c
run_server-IsCurrent interval (e ∷ es) s c =
    run_server-IsCurrent interval es (server_step interval e s)
      (server_step-IsCurrent interval e s c)

-- From a gateway without connections on, whatever happens in whatever order: a connection that is
-- open and read from is the one of the table for its agent, so an agent has one at most and its
-- commands go there.
pub run_server-one_heard :
    (interval : ℕ) (es : List ServerEvent) (start : GatewayServer)
    → start.next ≡ 0
    → (n : ℕ) → n < (run_server interval es start).next
    → is_heard ((run_server interval es start).handlers n) ≡ true
    → find_connection
        (uuid_of ((run_server interval es start).handlers n))
        (run_server interval es start).connections
      ≡ some n
run_server-one_heard interval es start empty =
    run_server-IsCurrent interval es start (λ n below. absurd (omega (arith, below, empty)))
