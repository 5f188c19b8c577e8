-- ===== src/Sessions/Life.antt =====
-- A session of an MRT connection from createMrtSessionStruct to destroySession
-- (Peering/peersession.c), with its place in the writer table of the peer queue.
use bgpmon.Base.{
  ℕ, zero, suc, ◌<◌, ◌≡◌, ◌≢◌, refl, sym, ap, ◌∙◌, List, [], ◌∷◌, Option, none, some, true, false,
  ◌==◌, length, get_elem?, set, ok, Bool-cases, inl, inr, subst, lt→ltb, ==_iff, get_elem?-set_self,
  get_elem?-set_ne, set-set, set_self,
}
use bgpmon.Queue.State.{max_queue_writers}
use bgpmon.Queue.Writers.{
  WritersValid, SameMessages, create_queue_writer_lem, destroy_queue_writer_lem,
}
use bgpmon.Labeling.Process.{LabelAction}
use bgpmon.Sessions.Store.{
  Tuple, MrtSession, Store, addr_max_chars, find_from, empty_slot, mrt_tuple, mrt_session,
  create_mrt_session_struct, find_session, destroy_session,
}
use bgpmon.Sessions.Find.{Lacks, Finds, find_from_lem}

empty_slot_lem :
    (l : List (Option MrtSession)) (j : ℕ)
    → get_elem? l j ≡ some none
    → (i : ℕ) × (empty_slot l ≡ some i) × (get_elem? l i ≡ some none)
unfolding empty_slot
empty_slot_lem [] j e = absurd (cc)
empty_slot_lem (none ∷ l) j e = (0, refl, refl)
empty_slot_lem (some s ∷ l) zero e = absurd (cc)
empty_slot_lem (some s ∷ l) (suc j) e =
    let (i, slot, at) = empty_slot_lem l j e in (suc i, rw slot refl, at)

-- A session that is put in an empty slot is found, if there was no other.
found_at :
    (t : Tuple) (l : List (Option MrtSession)) (i : ℕ) (s : MrtSession)
    → Lacks t l
    → get_elem? l i ≡ some none
    → s.config_in_use ≡ t
    → (found : Option ℕ) → Finds t (set l i (some s)) found
    → found ≡ some i
found_at t l i s lacks empty same none h =
    absurd (h i s (get_elem?-set_self l i (some s) none empty) same)
found_at t l i s lacks empty same (some j) (s', at, same', before) = elim (Bool-cases (j == i)) [
  | inl e ↦ ap some ((==_iff j i).0 e)
  | inr f ↦
      let differ : i ≢ j =
        λ e. absurd (let wrong : (j == i) ≡ true = (==_iff j i).1 (sym e) in cc) in
      absurd (lacks j s' (sym (get_elem?-set_ne l i j (some s) differ) ∙ at) same')
]

module _ (src_as dst_as : ℕ) (src_addr dst_addr : List ℕ) (wanted : LabelAction) (as_num_len : ℕ)
    (st : Store) where
  abbrev t : Tuple
  t = mrt_tuple src_as dst_as src_addr dst_addr

  -- The new session is in a slot that was empty, and has a writer of the peer queue that was free.
  pub record Created (i : ℕ) (st' : Store) : Type 0 where
    pub writer : ℕ
    pub run :
        create_mrt_session_struct src_as dst_as src_addr dst_addr wanted as_num_len st
        ≡ ok (st', some i)
    pub empty : get_elem? st.sessions i ≡ some none
    pub sessions :
        st'.sessions ≡ set st.sessions i (some (mrt_session i t wanted as_num_len writer))
    pub free : get_elem? st.peer_queue.used writer ≡ some false
    pub used : st'.peer_queue.used ≡ set st.peer_queue.used writer true
    pub valid : WritersValid st'.peer_queue
    pub unlocked : st'.peer_queue.locked ≡ false
    pub messages : SameMessages st.peer_queue st'.peer_queue
    pub found : find_session src_as dst_as 179 179 src_addr dst_addr st' ≡ some i

  -- While a slot of the table is empty, the peer queue is unlocked with a valid writer table and
  -- a slot left in it, both addresses fit and findSession finds no session with these ends,
  -- createMrtSessionStruct returns a slot that was empty and changes no other; the session there
  -- has a writer slot that was free, the queue is unlocked and valid with its messages untouched,
  -- and findSession finds the new session.
  pub create_mrt_session_struct_lem :
      (j : ℕ)
      → get_elem? st.sessions j ≡ some none
      → length src_addr < addr_max_chars
      → length dst_addr < addr_max_chars
      → WritersValid st.peer_queue
      → st.peer_queue.locked ≡ false
      → st.peer_queue.writercount < max_queue_writers
      → find_session src_as dst_as 179 179 src_addr dst_addr st ≡ none
      → (i : ℕ) × (st' : Store) × Created i st'
  unfolding create_mrt_session_struct find_session
  create_mrt_session_struct_lem j room short_src short_dst v unlocked few missing =
      let (i, slot, empty) = empty_slot_lem st.sessions j room in
      let (q', w, run, v', free, used', unlocked', same) =
        create_queue_writer_lem st.peer_queue v unlocked few in
      let s : MrtSession = mrt_session i t wanted as_num_len w in
      let lacks : Lacks t st.sessions =
        subst (Finds t st.sessions) missing (find_from_lem t st.sessions) in
      (
        i,
        record { sessions = set st.sessions i (some s); peer_queue = q' },
        record {
          writer = w;
          run =
              rw
                (
                  slot,
                  lt→ltb (length dst_addr) addr_max_chars short_dst,
                  lt→ltb (length src_addr) addr_max_chars short_src,
                  run,
                )
                refl;
          empty = empty;
          sessions = refl;
          free = free;
          used = used';
          valid = v';
          unlocked = unlocked';
          messages = same;
          found =
              found_at t st.sessions i s lacks empty refl (find_from t (set st.sessions i (some s)))
                (find_from_lem t (set st.sessions i (some s)));
        },
      )

  -- destroySession of a session that createMrtSessionStruct has made brings back the table of
  -- sessions and the slots of the peer queue's writer table as they were before, with the
  -- messages untouched.
  pub destroy_session-create :
      (i : ℕ) (st' : Store)
      → Created i st'
      → (st'' : Store) × (destroy_session i st' ≡ ok st'')
        × (st''.sessions ≡ st.sessions)
        × (st''.peer_queue.used ≡ st.peer_queue.used)
        × WritersValid st''.peer_queue
        × SameMessages st'.peer_queue st''.peer_queue
  unfolding destroy_session
  destroy_session-create i st' c =
      let s : MrtSession = mrt_session i t wanted as_num_len c.writer in
      let taken : get_elem? st'.peer_queue.used c.writer ≡ some true =
        ap (λ z. get_elem? z c.writer) c.used
        ∙ get_elem?-set_self st.peer_queue.used c.writer true false c.free in
      let (q', run, v', used', unlocked', same) =
        destroy_queue_writer_lem st'.peer_queue c.valid c.unlocked c.writer taken in
      let at : get_elem? st'.sessions i ≡ some (some s) =
        ap (λ z. get_elem? z i) c.sessions
        ∙ get_elem?-set_self st.sessions i (some s) none c.empty in
      (
        record { sessions = set st'.sessions i none; peer_queue = q' },
        rw (at, run) refl,
        ap (λ z. set z i none) c.sessions
            ∙ set-set st.sessions i (some s) none
            ∙ set_self st.sessions i none c.empty,
        used'
            ∙ ap (λ z. set z c.writer false) c.used
            ∙ set-set st.peer_queue.used c.writer true false
            ∙ set_self st.peer_queue.used c.writer false c.free,
        v',
        same,
      )
