-- ===== src/Control/Accepts.antt =====
-- network/simulation/simulation_control.cpp: the ids of the connections that are accepted.
use native.Mathlib.Nat.{mod-eq_of_lt}
use mathlib.Core.List.{append_assoc, append-nil}
use tensorlib.Prelude.{
  ℕ, zero, suc, ◌+◌, ◌<◌, ◌≤◌, ◌≡◌, refl, ap, sym, ◌∙◌, Bool, true, false, none, List, [], ◌∷◌,
  ◌++◌, length, map, ◌==◌, Result, ok, ◌>>=◌, arith, second_branch,
}
use tensorlib.Prelude.Word.{word_mod, add_word}
use tensorlib.Session.{Session, start}
use tensorlib.Control.{
  Control, has_key, handle_accept, finalize_connection, insert_connection, reopen, new_session,
  open_channel,
}

abbrev pub accept_all : Control → List (ℕ × Bool) → Result Control
accept_all c [] = ok c
accept_all c ((session_info, socket_open) ∷ sockets) =
    handle_accept c none session_info socket_open >>= λ d. accept_all d sockets

abbrev pub AllAtMost {ℓ} : {A : Type ℓ} → ℕ → List (ℕ × A) → Type 0
AllAtMost n [] = Unit
AllAtMost n ((k, a) ∷ entries) = (k ≤ n) × AllAtMost n entries

-- `n` ids, from `k` on.
abbrev pub ids_from : ℕ → ℕ → List ℕ
ids_from k zero = []
ids_from k (suc n) = k ∷ ids_from (suc k) n

abbrev pub ids_of : Control → List ℕ
ids_of c = map (λ entry. entry.0) c.connections

module _ {ℓ} {A : Type ℓ} where
  has_key-AllAtMost :
      (n : ℕ) (entries : List (ℕ × A)) → AllAtMost n entries → has_key (suc n) entries ≡ false
  has_key-AllAtMost n [] h = refl
  has_key-AllAtMost n ((k, a) ∷ entries) h =
      let ne : (k == suc n) ≡ false = ground (arith, h.0) in rw ne (has_key-AllAtMost n entries h.1)

  AllAtMost-append :
      (n : ℕ) (entries : List (ℕ × A)) (a : A)
      → AllAtMost n entries
      → AllAtMost (suc n) (entries ++ (suc n, a) ∷ [])
  AllAtMost-append n [] a h = (omega arith, tt)
  AllAtMost-append n ((k, b) ∷ entries) a h = (omega (arith, h.0), AllAtMost-append n entries a h.1)

map-append :
    (entries more : List (ℕ × Session))
    → map (λ e. e.0) (entries ++ more) ≡ map (λ e. e.0) entries ++ map (λ e. e.0) more
map-append [] more = refl
map-append (e ∷ entries) more = ap (λ ids. e.0 ∷ ids) (map-append entries more)

accept_one :
    (c : Control) (session_info : ℕ) (socket_open : Bool)
    → AllAtMost c.next_conn_id c.connections
    → suc c.next_conn_id < word_mod
    → handle_accept c none session_info socket_open
      ≡ ok (record c {
        connections =
            c.connections
            ++ (
              suc c.next_conn_id,
              start (new_session (suc c.next_conn_id) session_info socket_open),
            )
              ∷ [];
        next_conn_id = suc c.next_conn_id;
        accepting = true;
      })
unfolding handle_accept finalize_connection
accept_one c session_info socket_open fresh small =
    let below : c.next_conn_id + 1 < word_mod = omega (arith, small) in
    let next : add_word c.next_conn_id 1 ≡ suc c.next_conn_id = mod-eq_of_lt below ∙ omega arith in
    let t : Control = record c { accepting = false } in
    let id = suc c.next_conn_id in
    let d : Control = record t {
      connections = c.connections ++ (id, start (new_session id session_info socket_open)) ∷ [];
      next_conn_id = id;
    } in
    ap (λ id. reopen (insert_connection t session_info socket_open id)) next
    ∙ second_branch (λ r. reopen r ≡ ok (open_channel d)) _ _
        (has_key-AllAtMost c.next_conn_id c.connections fresh) refl

-- As many sockets as are accepted become connections, in order, and the ids of the connections are
-- the numbers after the last one that was given, so that none is refused as known, and another
-- socket is waited for, if no id of a connection is above the last one and the ids fit in 64 bits.
pub accept_all-ids_of :
    (c : Control) (sockets : List (ℕ × Bool))
    → AllAtMost c.next_conn_id c.connections
    → c.next_conn_id + length sockets < word_mod
    → c.accepting ≡ true
    → (d : Control) × (accept_all c sockets ≡ ok d)
      × (ids_of d ≡ ids_of c ++ ids_from (suc c.next_conn_id) (length sockets))
      × (d.accepting ≡ true)
accept_all-ids_of c [] h small accepting = (c, refl, sym (append-nil (ids_of c)), accepting)
accept_all-ids_of c ((session_info, socket_open) ∷ sockets) h small accepting =
    let id = suc c.next_conn_id in
    let entry : ℕ × Session = (id, start (new_session id session_info socket_open)) in
    let one : Control = record c {
      connections = c.connections ++ entry ∷ [];
      next_conn_id = id;
      accepting = true;
    } in
    let first = accept_one c session_info socket_open h (omega (arith, small)) in
    let (d, rest, ids, waiting) =
      accept_all-ids_of one sockets (AllAtMost-append c.next_conn_id c.connections entry.1 h)
        (omega (arith, small)) refl in
    (
      d,
      ap (λ r. r >>= λ e. accept_all e sockets) first ∙ rest,
      ids
          ∙ ap (λ xs. xs ++ ids_from (suc id) (length sockets))
              (map-append c.connections (entry ∷ []))
          ∙ append_assoc (ids_of c) (id ∷ []) (ids_from (suc id) (length sockets)),
      waiting,
    )
