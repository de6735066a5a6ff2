-- ===== src/Session/Drops.antt =====
-- session.cpp: the ids of a session and its queue when a publish leaves it.
use flash_mq.Base.{
  ℕ, ◌<◌, ◌≡◌, refl, sym, subst, ◌∙◌, Bool, true, false, [], ◌∷◌, ◌==◌, if◌then◌else◌, arith,
  Bool-cases, inl, inr,
}
use flash_mq.UsedIds.{contains, num_values}
use flash_mq.UsedIds.Members.{IsValid, erase-Changes}
use flash_mq.QosData.{increase_flow_control_quota}
use flash_mq.QosQueue.{QosPublishQueue}
use flash_mq.QosQueue.Fifo.{Fifo, has_id, drop_id, unique_ids, Represents}
use flash_mq.Session.{Session}

-- The queue stands for `l`, and the ids of `l` are in use.
pub record Agrees (s : Session) (l : Fifo) : Type 0 where
  pub stands : Represents s.queue l
  pub valid : IsValid s.qos.used_ids
  pub small : (id : ℕ) → has_id id l ≡ true → id < num_values
  pub used : (id : ℕ) → has_id id l ≡ true → contains s.qos.used_ids id ≡ true

-- The agreement does not depend on when the session ends.
pub Agrees-any :
    (s : Session) (l : Fifo) (d : Bool)
    → Agrees s l
    → Agrees (record s { destroy_on_disconnect = d }) l
Agrees-any s l d a = record { stands = a.stands; valid = a.valid; small = a.small; used = a.used }

has_id-drop_self : (id : ℕ) (l : Fifo) → unique_ids l ≡ true → has_id id (drop_id id l) ≡ false
has_id-drop_self id [] u = refl
has_id-drop_self id ((i, publish) ∷ l) u = ground (arith, has_id-drop_self id l)

has_id-drop_id : (id j : ℕ) (l : Fifo) → has_id j (drop_id id l) ≡ true → has_id j l ≡ true
has_id-drop_id id j [] h = h
has_id-drop_id id j ((i, publish) ∷ l) h = ground (arith, has_id-drop_id id j l)

-- An id that is left is not the one that was dropped.
left_ne :
    (id j : ℕ) (l : Fifo) → unique_ids l ≡ true → has_id j (drop_id id l) ≡ true → (id == j) ≡ false
left_ne id j l u h = elim (Bool-cases (id == j)) [
  | inl e ↦
      let same : id ≡ j = ground arith in
      let gone = has_id-drop_self id l u in
      let gone' = rw (same) at gone in let h' = rw (same) at h in ground arith
  | inr e ↦ e
]

pub Agrees-dropped :
    (s : Session) (l : Fifo) (id : ℕ) (queue : QosPublishQueue) (ends : Bool)
    → Agrees s l
    → id < num_values
    → Represents queue (drop_id id l)
    → Agrees
        (record s {
          queue = queue;
          qos = if ends then increase_flow_control_quota id s.qos else s.qos;
        })
        (drop_id id l)
unfolding increase_flow_control_quota
Agrees-dropped s l id queue false a small r = record {
  stands = r;
  valid = a.valid;
  small = λ j h. a.small j (has_id-drop_id id j l h);
  used = λ j h. a.used j (has_id-drop_id id j l h);
}
Agrees-dropped s l id queue true a small r =
    let (valid', reads) = erase-Changes id s.qos.used_ids a.valid small in
    record {
      stands = r;
      valid = valid';
      small = λ j h. a.small j (has_id-drop_id id j l h);
      used = λ j h.
          reads j (a.small j (has_id-drop_id id j l h))
          ∙ rw (left_ne id j l a.stands.ids h) (a.used j (has_id-drop_id id j l h));
    }

drop_id-absent : (id : ℕ) (l : Fifo) → has_id id l ≡ false → drop_id id l ≡ l
drop_id-absent id [] h = refl
drop_id-absent id ((i, publish) ∷ l) h = ground (arith, drop_id-absent id l)

-- An id that is not queued is given back.
pub Agrees-absent :
    (s : Session) (l : Fifo) (id : ℕ)
    → Agrees s l
    → id < num_values
    → has_id id l ≡ false
    → Agrees (record s { qos = increase_flow_control_quota id s.qos }) l
Agrees-absent s l id a small out =
    let same = drop_id-absent id l out in
    let r = subst (λ k. Represents s.queue k) (sym same) a.stands in
    subst (λ k. Agrees (record s { qos = increase_flow_control_quota id s.qos }) k) same
      (Agrees-dropped s l id s.queue true a small r)

pub contains-increase_flow_control_quota :
    (s : Session) (id : ℕ)
    → IsValid s.qos.used_ids
    → id < num_values
    → contains (increase_flow_control_quota id s.qos).used_ids id ≡ false
unfolding increase_flow_control_quota
contains-increase_flow_control_quota s id v small =
    let (_, reads) = erase-Changes id s.qos.used_ids v small in
    let self : (id == id) ≡ true = ground arith in reads id small ∙ rw (self) refl
