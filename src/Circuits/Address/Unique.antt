-- ===== src/Circuits/Address/Unique.antt =====
-- Unique IDs and the numbers of circuits stay one to one.
use spark_fun_lo_ra_serial.Base.{
  ℕ, zero, suc, ◌+◌, ◌≤◌, ◌<◌, ◌≡◌, ◌≢◌, refl, sym, ap, subst, ◌∙◌, ◌⊎◌, inl, inr, Bool, true,
  false, not, List, [], ◌∷◌, none, some, if◌then◌else◌, length, get_or, arith, dec_lt, ℕ_discrete,
  Option-cases, ◌==◌, ◌&&◌,
}
use spark_fun_lo_ra_serial.Datagram.{Circuit}
use spark_fun_lo_ra_serial.Serial.{Port}
use spark_fun_lo_ra_serial.Circuits.{
  Circuits, circuit, outside, max_vc, vc_unassigned, vc_link_alive, nvm_save_unique_id,
}
use spark_fun_lo_ra_serial.Circuits.Search.{
  first, first-none, first-some, bytes_eq, bytes_eq_sound, bytes_eq_refl,
}
use spark_fun_lo_ra_serial.Circuits.Tags.{
  tag, SameTags, vc_link_alive-SameTags, circuit-save_self, circuit-save_ne, length-save,
}
use spark_fun_lo_ra_serial.Circuits.Address.{
  Address, address, not_server, too_many_clients, conflict, report, holds, is_free, assign,
  assign_free, assign_new, conflict_message, too_many_clients_message, vc_id_to_address_byte,
}

-- No two entries in use have the same ID.
pub record IsUnique (t : Circuits) : Type 0 where
  pub sized : length t.list ≡ max_vc
  pub one :
      (i j : ℕ) (id : List ℕ)
      → tag (circuit t i) ≡ (true, id)
      → tag (circuit t j) ≡ (true, id)
      → i ≡ j

-- What becomes of the entries: an address is that of an entry for the ID, and no entry changes but
-- that one, if it was free; an error changes none.
abbrev pub Assigned : List ℕ → Circuits → Address × Circuits → Type 0
Assigned id t (address i, u) =
    (i < max_vc)
    × (tag (circuit u i) ≡ (true, id))
    × ((j : ℕ)
        → (tag (circuit u j) ≡ tag (circuit t j)) ⊎ ((j ≡ i) × ((circuit t j).valid ≡ false)))
Assigned id t (not_server, u) = (j : ℕ) → tag (circuit u j) ≡ tag (circuit t j)
Assigned id t (too_many_clients, u) = (j : ℕ) → tag (circuit u j) ≡ tag (circuit t j)
Assigned id t (conflict, u) = (j : ℕ) → tag (circuit u j) ≡ tag (circuit t j)

abbrev Good : List ℕ → Circuits → Address × Circuits → Type 0
Good id t r = IsUnique r.1 × Assigned id t r

Good-if :
    (id : List ℕ) (t : Circuits) (c : Bool) (x y : Address × Circuits)
    → (c ≡ true → Good id t x)
    → (c ≡ false → Good id t y)
    → Good id t (if c then x else y)
Good-if id t true x y p q = p refl
Good-if id t false x y p q = q refl

IsUnique-SameTags : (t u : Circuits) → SameTags t u → IsUnique t → IsUnique u
IsUnique-SameTags t u s v = record {
  sized = s.size ∙ v.sized;
  one = λ i j id a b. v.one i j id (sym (s.tags i) ∙ a) (sym (s.tags j) ∙ b);
}

holds→tag : (id : List ℕ) (vc : Circuit) → holds id vc ≡ true → tag vc ≡ (true, id)
holds→tag id vc h = parts vc.valid (bytes_eq vc.unique_id id) h (bytes_eq_sound vc.unique_id id)
  where
    parts :
        (v e : Bool)
        → (v && e) ≡ true
        → (e ≡ true → vc.unique_id ≡ id)
        → ◌≡◌ {A = Bool × List ℕ} (v, vc.unique_id) (true, id)
    parts true e h same = ap (λ q. (true, q)) (same h)
    parts false e h same = cc

tag→holds : (id : List ℕ) (vc : Circuit) → tag vc ≡ (true, id) → holds id vc ≡ true
tag→holds id vc h = ap (λ p. p.0 && bytes_eq p.1 id) h ∙ bytes_eq_refl id

found→tag :
    (id : List ℕ) (t : Circuits) (k : ℕ)
    → first (holds id) t.list 0 ≡ some k
    → (k < length t.list) × (tag (circuit t k) ≡ (true, id))
found→tag id t k e =
    let (j, same, lt, h) = first-some (holds id) t.list 0 k outside e in
    (
      omega arith,
      holds→tag id (circuit t k) (subst (λ i. holds id (circuit t i) ≡ true) (index j same) h),
    )
  where
    index : (j : ℕ) → k ≡ 0 + j → j ≡ k
    index j same = omega arith

get_or_past : (xs : List Circuit) (j : ℕ) (d : Circuit) → length xs ≤ j → get_or xs j d ≡ d
get_or_past [] j d h = refl
get_or_past (x ∷ xs) zero d h = absurd (omega arith)
get_or_past (x ∷ xs) (suc j) d h = get_or_past xs j d (omega arith)

-- An ID that the search does not find stands nowhere.
absent :
    (id : List ℕ) (t : Circuits) (j : ℕ)
    → first (holds id) t.list 0 ≡ none
    → tag (circuit t j) ≢ (true, id)
absent id t j e h = elim (dec_lt j (length t.list)) [
  | yes p ↦ cc (first-none (holds id) t.list 0 j outside e p, tag→holds id (circuit t j) h)
  | no p ↦
      cc (
        ap (λ (c : Circuit). c.valid) (get_or_past t.list j outside (omega arith)),
        ap (λ q. q.0) h,
      )
]

save-IsUnique :
    (i : ℕ) (id : List ℕ) (t : Circuits)
    → IsUnique t
    → i < max_vc
    → ((j : ℕ) → tag (circuit t j) ≢ (true, id))
    → IsUnique (nvm_save_unique_id i id t)
save-IsUnique i id t v lt new = record {
  sized = length-save i id t ∙ v.sized;
  one = λ a b id' p q. elim (ℕ_discrete i a) [
    | yes ea ↦ elim (ℕ_discrete i b) [
      | yes eb ↦ sym ea ∙ eb
      | no nb ↦ absurd (
          new b (
            old b nb
            ∙ q
            ∙ ap (λ w. (true, w))
                (that id' (
                  subst (λ k. tag (circuit (nvm_save_unique_id i id t) k) ≡ (true, id')) (sym ea)
                    p))))
    ]
    | no na ↦ elim (ℕ_discrete i b) [
      | yes eb ↦ absurd (
          new a (
            old a na
            ∙ p
            ∙ ap (λ w. (true, w))
                (that id' (
                  subst (λ k. tag (circuit (nvm_save_unique_id i id t) k) ≡ (true, id')) (sym eb)
                    q))))
      | no nb ↦ v.one a b id' (old a na ∙ p) (old b nb ∙ q)
    ]
  ];
}
  where
    old : (j : ℕ) → i ≢ j → tag (circuit t j) ≡ tag (circuit (nvm_save_unique_id i id t) j)
    old j ne = sym (ap tag (circuit-save_ne i j id t ne))

    that : (id' : List ℕ) → tag (circuit (nvm_save_unique_id i id t) i) ≡ (true, id') → id' ≡ id
    that id' p = ap (λ w. w.1) (sym p ∙ circuit-save_self i id t (omega (arith, v.sized)))

report-SameTags :
    (port : Port) (message : List ℕ) (t : Circuits) → SameTags t (report port message t)
unfolding report
report-SameTags port message t = record { tags = λ j. refl; size = refl; nvm = refl }

assign-Good :
    (port : Port) (i : ℕ) (id : List ℕ) (t : Circuits)
    → IsUnique t
    → i < max_vc
    → ((j : ℕ) → tag (circuit t j) ≢ (true, id))
    → Good id t (assign port i id t)
unfolding assign
assign-Good port i id t v lt new =
    Good-if id t (circuit t i).valid
      (conflict, report port (conflict_message i id (circuit t i).unique_id) t)
      (address i, vc_link_alive port i saved) (λ _. (IsUnique-SameTags t _ refused v, refused.tags))
      (λ free. (
        IsUnique-SameTags saved _ alive (save-IsUnique i id t v lt new),
        (
          lt,
          alive.tags i ∙ circuit-save_self i id t (omega (arith, v.sized)),
          λ j. elim (ℕ_discrete i j) [
            | yes e ↦ inr (sym e, subst (λ k. (circuit t k).valid ≡ false) e free)
            | no ne ↦ inl (alive.tags j ∙ ap tag (circuit-save_ne i j id t ne))
          ],
        ),
      ))
  where
    saved : Circuits
    saved = nvm_save_unique_id i id t

    alive : SameTags saved (vc_link_alive port i saved)
    alive = vc_link_alive-SameTags port i saved

    refused : SameTags t (report port (conflict_message i id (circuit t i).unique_id) t)
    refused = report-SameTags port (conflict_message i id (circuit t i).unique_id) t

assign_free-Good :
    (port : Port) (id : List ℕ) (t : Circuits)
    → IsUnique t
    → ((j : ℕ) → tag (circuit t j) ≢ (true, id))
    → Good id t (assign_free port id t)
unfolding assign_free
assign_free-Good port id t v new = elim (Option-cases (first is_free t.list 0)) [
  | inl e ↦
      rw (e, assign_free)
        (
          IsUnique-SameTags t _ (report-SameTags port too_many_clients_message t) v,
          (report-SameTags port too_many_clients_message t).tags,
        )
  | inr (k, e) ↦
      rw (e, assign_free)
        (let (j, same, lt, free) = first-some is_free t.list 0 k outside e in
          assign-Good port k id t v (omega (arith, v.sized)) new)
]

assign_new-Good :
    (port : Port) (src : ℕ) (id : List ℕ) (t : Circuits)
    → IsUnique t
    → (src < max_vc) ⊎ (src ≡ vc_unassigned)
    → ((j : ℕ) → tag (circuit t j) ≢ (true, id))
    → Good id t (assign_new port src id t)
unfolding assign_new
assign_new-Good port src id t v known new =
    Good-if id t (src == vc_unassigned)
      (if not t.serial.settings.server then (not_server, t) else assign_free port id t)
      (assign port src id t)
      (λ _.
        Good-if id t (not t.serial.settings.server) (not_server, t) (assign_free port id t)
          (λ _. (v, λ j. refl)) (λ _. assign_free-Good port id t v new))
      (λ other. assign-Good port src id t v (ground arith) new)

-- Given distinct IDs in a full-size list and an address in the list or none, vcIdToAddressByte
-- keeps the IDs distinct; if it returns an address, that is in the list and belongs to the ID, and
-- no other entry has changed its ID or its validity, nor has that one unless it was free; else
-- none has.
pub vc_id_to_address_byte_lem :
    (port : Port) (src : ℕ) (id : List ℕ) (t : Circuits)
    → IsUnique t
    → (src < max_vc) ⊎ (src ≡ vc_unassigned)
    → IsUnique (vc_id_to_address_byte port src id t).1
      × Assigned id t (vc_id_to_address_byte port src id t)
unfolding vc_id_to_address_byte
vc_id_to_address_byte_lem port src id t v known = elim (Option-cases (first (holds id) t.list 0)) [
  | inl e ↦
      rw (e, vc_id_to_address_byte) (assign_new-Good port src id t v known (λ j. absent id t j e))
  | inr (k, e) ↦ rw (e, vc_id_to_address_byte) (old k (found→tag id t k e))
]
  where
    old :
        (k : ℕ)
        → (k < length t.list) × (tag (circuit t k) ≡ (true, id))
        → Good id t (address k, vc_link_alive port k t)
    old k (lt, placed) =
        let alive = vc_link_alive-SameTags port k t in
        (
          IsUnique-SameTags t _ alive v,
          (omega (arith, v.sized), alive.tags k ∙ placed, λ i. inl (alive.tags i)),
        )

Assigned→tag :
    (id : List ℕ) (t : Circuits) (i : ℕ) (r : Address × Circuits)
    → Assigned id t r
    → r.0 ≡ address i
    → tag (circuit r.1 i) ≡ (true, id)
Assigned→tag id t i (address k, u) a e =
    subst (λ j. tag (circuit u j) ≡ (true, id)) (ap (λ w. elim w [ address j ↦ j | _ ↦ 0 ]) e) a.1
Assigned→tag id t i (not_server, u) a e = cc
Assigned→tag id t i (too_many_clients, u) a e = cc
Assigned→tag id t i (conflict, u) a e = cc

-- With distinct IDs in a full-size list, after vcIdToAddressByte has given an address to an ID
-- that came with an address in the list or none, the same ID gets it again, with whatever address
-- it comes.
pub vc_id_to_address_byte_again :
    (port : Port) (src src' i : ℕ) (id : List ℕ) (t : Circuits)
    → IsUnique t
    → (src < max_vc) ⊎ (src ≡ vc_unassigned)
    → (vc_id_to_address_byte port src id t).0 ≡ address i
    → (vc_id_to_address_byte port src' id (vc_id_to_address_byte port src id t).1).0 ≡ address i
unfolding vc_id_to_address_byte
vc_id_to_address_byte_again port src src' i id t v known e =
    elim (Option-cases (first (holds id) u.list 0)) [
      | inl none_found ↦ absurd (absent id u i none_found placed)
      | inr (k, found) ↦
          rw (found, vc_id_to_address_byte)
            (ap address (good.0.one k i id (found→tag id u k found).1 placed))
    ]
  where
    u : Circuits
    u = (vc_id_to_address_byte port src id t).1

    good : Good id t (vc_id_to_address_byte port src id t)
    good = vc_id_to_address_byte_lem port src id t v known

    placed : tag (circuit u i) ≡ (true, id)
    placed = Assigned→tag id t i (vc_id_to_address_byte port src id t) good.1 e
