-- ===== src/Host/Console/Status.antt =====
-- What the host program knows of a circuit after a state message, `radioToPcLinkStatus`.
use spark_fun_lo_ra_serial.Base.{
  ℕ, ◌<◌, ◌≡◌, ◌≢◌, subst, refl, sym, ap, ◌∙◌, inl, inr, Bool, true, false, not, List,
  if◌then◌else◌, ◌==◌, ◌&&◌, ◌||◌, Bool-cases, Option, length, get_or, get_or-set_self, set, take,
  drop,
}
use spark_fun_lo_ra_serial.Circuits.{unique_id_bytes, erased_id}
use spark_fun_lo_ra_serial.Circuits.Search.{bytes_eq, bytes_eq_sound, bytes_eq_refl}
use spark_fun_lo_ra_serial.Host.Console.{
  Peer, Console, no_peer, save_id, connect, bring_up, fail_command, radio_to_pc_link_status,
}

-- An ID that the radio does not know leaves the entry's ID; any other one is that of the entry then.
pub data Learned (id : List ℕ) (p q : Peer) : Type 0 where
  unknown : id ≡ erased_id → q.unique_id ≡ p.unique_id → q.valid ≡ p.valid → Learned id p q
  known : id ≢ erased_id → q.unique_id ≡ id → q.valid ≡ true → Learned id p q

different : (xs ys : List ℕ) → bytes_eq xs ys ≡ false → xs ≢ ys
different xs ys e same = cc (ap (bytes_eq xs) same, bytes_eq_refl xs)

save_id-Learned : (id : List ℕ) (p : Peer) → Learned id p (save_id id p)
unfolding save_id
save_id-Learned id p = elim (Bool-cases (bytes_eq id erased_id)) [
  | inl erased ↦ elim (Bool-cases p.valid) [
    | inl valid ↦ elim (Bool-cases (bytes_eq id p.unique_id)) [
      | inl same ↦
          rw (erased, valid, same) (Learned.unknown (bytes_eq_sound id erased_id erased) refl refl)
      | inr other ↦
          rw (erased, valid, other) (Learned.unknown (bytes_eq_sound id erased_id erased) refl refl)
    ]
    | inr invalid ↦
        rw (erased, invalid) (Learned.unknown (bytes_eq_sound id erased_id erased) refl refl)
  ]
  | inr set_id ↦ elim (Bool-cases p.valid) [
    | inl valid ↦ elim (Bool-cases (bytes_eq id p.unique_id)) [
      | inl same ↦
          rw (set_id, valid, same)
            (Learned.known (different id erased_id set_id)
              (sym (bytes_eq_sound id p.unique_id same)) refl)
      | inr other ↦
          rw (set_id, valid, other) (Learned.known (different id erased_id set_id) refl refl)
    ]
    | inr invalid ↦ rw (set_id, invalid) (Learned.known (different id erased_id set_id) refl refl)
  ]
]

vc_state-save_id : (id : List ℕ) (p : Peer) → (save_id id p).vc_state ≡ p.vc_state
unfolding save_id
vc_state-save_id id p = elim (Bool-cases p.valid) [
  | inl valid ↦ elim (Bool-cases (not (bytes_eq id p.unique_id) && not (bytes_eq id erased_id))) [
    | inl new ↦ rw (valid, new)
    | inr old ↦ rw (valid, old)
  ]
  | inr invalid ↦ elim (Bool-cases (bytes_eq id erased_id)) [
    | inl erased ↦ rw (invalid, erased)
    | inr set_id ↦ rw (invalid, set_id)
  ]
]

list-if :
    (c : Bool) (x y : Console) (peers : List Peer)
    → x.list ≡ peers
    → y.list ≡ peers
    → (if c then x else y).list ≡ peers
list-if true x y peers p q = p
list-if false x y peers p q = q

module _ (write : ℕ → ℕ → Option ℕ) (rounds : ℕ) where
  list-bring_up :
      (src previous_state state : ℕ) (c : Console)
      → (bring_up write rounds src previous_state state c).list ≡ c.list
  unfolding bring_up connect
  list-bring_up src previous_state state c =
      list-if
        (state == 1
          && (not (previous_state == state)
              && (c.my_vc == 0 || (src == c.remote_vc || src == c.my_vc))))
        (connect write rounds src c) c c.list refl refl

  list-fail_command :
      (src state : ℕ) (c : Console) → (fail_command write rounds src state c).list ≡ c.list
  unfolding fail_command
  list-fail_command src state c =
      list-if (c.waiting_for_command_complete && (not (state == 5) && src == c.remote_command_vc))
        (record c { command_status = true; waiting_for_command_complete = false }) c c.list refl
        refl

  list-link_status :
      (message : List ℕ) (c : Console)
      → (radio_to_pc_link_status write rounds message c).list
        ≡ set c.list (get_or message 3 0) (
            save_id
              (take unique_id_bytes (drop 5 message))
              (record (get_or c.list (get_or message 3 0) no_peer) {
                vc_state = get_or message 4 0;
              }))
  unfolding radio_to_pc_link_status
  list-link_status message c =
      list-fail_command (get_or message 3 0) (get_or message 4 0) _
      ∙ list-bring_up (get_or message 3 0) (get_or c.list (get_or message 3 0) no_peer).vc_state
          (get_or message 4 0) _

-- After a state message from a circuit in the list, the host program's entry of the circuit has
-- the state of the message, and its ID if the radio knows it; else it keeps the ID that it had.
pub radio_to_pc_link_status_lem :
    (write : ℕ → ℕ → Option ℕ) (rounds : ℕ) (message : List ℕ) (c : Console)
    → get_or message 3 0 < length c.list
    → let p = get_or c.list (get_or message 3 0) no_peer in
      let q =
        get_or (radio_to_pc_link_status write rounds message c).list (get_or message 3 0) no_peer in
      (q.vc_state ≡ get_or message 4 0) × Learned (take unique_id_bytes (drop 5 message)) p q
radio_to_pc_link_status_lem write rounds message c h = (
  ap (λ (q : Peer). q.vc_state) entry ∙ vc_state-save_id id noted,
  Learned-old (subst (Learned id noted) (sym entry) (save_id-Learned id noted)),
)
  where
    id : List ℕ
    id = take unique_id_bytes (drop 5 message)

    peer : Peer
    peer = get_or c.list (get_or message 3 0) no_peer

    noted : Peer
    noted = record peer { vc_state = get_or message 4 0 }

    entry :
        get_or (radio_to_pc_link_status write rounds message c).list (get_or message 3 0) no_peer
        ≡ save_id id noted
    entry =
        ap (λ l. get_or l (get_or message 3 0) no_peer) (list-link_status write rounds message c)
        ∙ get_or-set_self c.list (get_or message 3 0) (save_id id noted) no_peer h

    Learned-old : {q : Peer} → Learned id noted q → Learned id peer q
    Learned-old (Learned.unknown e same valid) = Learned.unknown e same valid
    Learned-old (Learned.known ne same valid) = Learned.known ne same valid
