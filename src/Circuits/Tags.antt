-- ===== src/Circuits/Tags.antt =====
-- What changes of state leave alone: which entries are in use, and for which unique ID.
use spark_fun_lo_ra_serial.Base.{
  ℕ, zero, suc, ◌<◌, ◌≡◌, ◌≢◌, refl, ap, ◌∙◌, Bool, true, false, List, [], ◌∷◌, if◌then◌else◌,
  length, get_or, set, length-set, get_or-set_self, get_or-set_ne, ◌==◌,
}
use spark_fun_lo_ra_serial.Datagram.{VcState, Circuit, link_alive}
use spark_fun_lo_ra_serial.Serial.{Port}
use spark_fun_lo_ra_serial.Circuits.{
  Circuits, circuit, outside, vc_state_number, vc_send_pc_state_message, vc_change_state,
  vc_link_alive, nvm_save_unique_id,
}

abbrev pub tag : Circuit → Bool × List ℕ
tag vc = (vc.valid, vc.unique_id)

pub record SameTags (t u : Circuits) : Type 0 where
  pub tags : (j : ℕ) → tag (circuit u j) ≡ tag (circuit t j)
  pub size : length u.list ≡ length t.list
  pub nvm : u.nvm ≡ t.nvm

pub SameTags-refl : (t : Circuits) → SameTags t t
SameTags-refl t = record { tags = λ j. refl; size = refl; nvm = refl }

SameTags-trans : (t u w : Circuits) → SameTags t u → SameTags u w → SameTags t w
SameTags-trans t u w a b = record {
  tags = λ j. b.tags j ∙ a.tags j;
  size = b.size ∙ a.size;
  nvm = b.nvm ∙ a.nvm;
}

SameTags-if :
    (t : Circuits) (c : Bool) (u w : Circuits)
    → SameTags t u
    → SameTags t w
    → SameTags t (if c then u else w)
SameTags-if t true u w p q = p
SameTags-if t false u w p q = q

tag-set :
    (xs : List Circuit) (i j : ℕ) (v d : Circuit)
    → tag v ≡ tag (get_or xs i d)
    → tag (get_or (set xs i v) j d) ≡ tag (get_or xs j d)
tag-set [] i j v d e = refl
tag-set (x ∷ xs) zero zero v d e = e
tag-set (x ∷ xs) zero (suc j) v d e = refl
tag-set (x ∷ xs) (suc i) zero v d e = refl
tag-set (x ∷ xs) (suc i) (suc j) v d e = tag-set xs i j v d e

vc_change_state-SameTags :
    (port : Port) (i : ℕ) (state : VcState) (t : Circuits)
    → SameTags t (vc_change_state port i state t)
unfolding vc_change_state vc_send_pc_state_message
vc_change_state-SameTags port i state t = sent (
    SameTags-if t (vc_state_number state == vc_state_number (circuit t i).vc_state) _ _
      (SameTags-refl t)
      (record {
        tags = λ j. tag-set t.list i j _ outside refl;
        size = length-set t.list i _;
        nvm = refl;
      }))
  where
    sent : {u : Circuits} → SameTags t u → SameTags t (vc_send_pc_state_message port i state u)
    sent p = record { tags = p.tags; size = p.size; nvm = p.nvm }

pub vc_link_alive-SameTags :
    (port : Port) (i : ℕ) (t : Circuits) → SameTags t (vc_link_alive port i t)
unfolding vc_link_alive
vc_link_alive-SameTags port i t =
    SameTags-if t (vc_state_number (circuit t i).vc_state == 0) _ _
      (SameTags-trans t heard _
        (record {
          tags = λ j. tag-set t.list i j _ outside refl;
          size = length-set t.list i _;
          nvm = refl;
        })
        (vc_change_state-SameTags port i link_alive heard))
      (SameTags-refl t)
  where
    heard : Circuits
    heard = record t {
      list = set t.list i (record (circuit t i) { first_heartbeat_millis = port.millis });
    }

-- A saved ID is that of its entry, and the other entries stay.
pub circuit-save_self :
    (i : ℕ) (id : List ℕ) (t : Circuits)
    → i < length t.list
    → tag (circuit (nvm_save_unique_id i id t) i) ≡ (true, id)
unfolding nvm_save_unique_id
circuit-save_self i id t h = ap tag (get_or-set_self t.list i _ outside h)

pub circuit-save_ne :
    (i j : ℕ) (id : List ℕ) (t : Circuits)
    → i ≢ j
    → circuit (nvm_save_unique_id i id t) j ≡ circuit t j
unfolding nvm_save_unique_id
circuit-save_ne i j id t ne = get_or-set_ne t.list {i = i} {j = j} _ outside ne

pub length-save :
    (i : ℕ) (id : List ℕ) (t : Circuits) → length (nvm_save_unique_id i id t).list ≡ length t.list
unfolding nvm_save_unique_id
length-save i id t = length-set t.list i _
