-- ===== src/Delegator/KeyGen/Invitations.antt =====
-- Which peers are invited to be initial pinners, for `invite_candidate_initial_pinners` of
-- delegator/key_gen/candidates.rs.
use gluon_actor.Base.{
  ℕ, ◌*◌, ◌≤◌, ◌<◌, ◌≡◌, refl, ap, ◌∙◌, arith, Bool, true, false, ◌&&◌, not, Bool-cases, inl, inr,
  String, List, [], ◌∷◌, ◌++◌, map, ok, length, length-take, length-append, take, min, contains,
  All, str_eq,
}
use gluon_actor.Base.Tally.{
  every, every-append, every-take, contains_each, Perm-every, All-every, tally, occurrences,
  tally-append, Perm-tally, tally-take,
}
use gluon_actor.Base.Bytes.{Bytes}
use gluon_actor.Proto.{GeneralMsg}
use gluon_actor.Common.TaskInfo.{TaskInfo}
use gluon_actor.Common.Calls.{Sends, perform-Sends, for_each-Sends}
use gluon_actor.Common.Utils.{for_each}
use gluon_actor.Common.KeyGeneration.{send_key_candidate_request, to_candidate_signature_bytes}
use gluon_actor.Common.KeyGeneration.Signature.{signed_request}
use gluon_actor.Host.{Host, World, Event, lift, ask}
use gluon_actor.Host.Rules.{IsReliable, Ensures, Ensures-bind, Ensures-lift, bind-run}
use gluon_actor.Delegator.KeyGen.Candidates.{random_select_peers}
use gluon_actor.Delegator.KeyGen.Candidates.Loop.{IsUsable, Perm-length}
use gluon_actor.Delegator.KeyGen.Candidates.Laws.{random_select_peers_lem}
use gluon_actor.Delegator.KeyGen.Handlers.{without_ids, invite_candidate_initial_pinners}

-- The peers that may be invited: of the swarm, and no delegates.
abbrev pub is_eligible : List String → List String → String → Bool
is_eligible filter_ids peers id = not (contains filter_ids id) && contains peers id

without_ids-every :
    (filter_ids : List String) (f : String → Bool) (xs : List String)
    → every f xs ≡ true
    → every (λ x. not (contains filter_ids x) && f x) (without_ids filter_ids xs) ≡ true
unfolding every without_ids
without_ids-every filter_ids f [] h = refl
without_ids-every filter_ids f (x ∷ xs) h = ground (arith, without_ids-every filter_ids f xs)

without_ids-count :
    (filter_ids xs : List String)
    → length (without_ids filter_ids xs) ≡ tally (λ x. not (contains filter_ids x)) xs
unfolding without_ids
without_ids-count filter_ids [] = refl
without_ids-count filter_ids (x ∷ xs) = ground (arith, without_ids-count filter_ids xs)

without_ids-tally :
    (f : String → Bool) (filter_ids xs : List String)
    → tally f (without_ids filter_ids xs) ≤ tally f xs
unfolding without_ids
without_ids-tally f filter_ids [] = omega arith
without_ids-tally f filter_ids (x ∷ xs) = ground (arith, without_ids-tally f filter_ids xs)

without_ids-IsUsable :
    (filter_ids xs : List String) → All IsUsable xs → All IsUsable (without_ids filter_ids xs)
unfolding without_ids
without_ids-IsUsable filter_ids [] h = tt
without_ids-IsUsable filter_ids (x ∷ xs) (u, us) = elim (Bool-cases (contains filter_ids x)) [
  | inl t ↦ rw t (without_ids-IsUsable filter_ids xs us)
  | inr f ↦ rw f (u, without_ids-IsUsable filter_ids xs us)
]

-- The peers that are invited.
pub record IsInvited (filter_ids peers : List String) (n : ℕ) (invited : List String) : Type 0 where
  pub count : length invited ≡ min (n * 2) (tally (λ id. not (contains filter_ids id)) peers)
  pub once : (id : String) → occurrences id invited ≤ occurrences id peers
  pub eligible : All (λ id. is_eligible filter_ids peers id ≡ true) invited

selected-IsInvited :
    (filter_ids peers : List String) (info : TaskInfo)
    → 0 < info.exec_info.n
    → info.exec_info.n ≤ 255
    → IsUsable info.task_id
    → All IsUsable peers
    → (out : List String) × (random_select_peers
          (without_ids filter_ids peers)
          info.exec_info.n
          info.task_id
        ≡ ok out)
      × IsInvited filter_ids peers info.exec_info.n (take (info.exec_info.n * 2) out)
selected-IsInvited filter_ids peers info pos small usable usables =
    let ids = without_ids filter_ids peers in
    let all_eligible : every (is_eligible filter_ids peers) ids ≡ true =
      without_ids-every filter_ids (contains peers) peers (contains_each peers) in
    let (out, run, how) =
      random_select_peers_lem ids info.exec_info.n info.task_id pos small usable
        (without_ids-IsUsable filter_ids peers usables) in
    (
      out,
      run,
      elim how [
        | inl (few, whole) ↦ record {
          count =
              length-take _ out
              ∙ ap (λ l. min (info.exec_info.n * 2) (length {A = String} l)) whole
              ∙ ap (min (info.exec_info.n * 2)) (without_ids-count filter_ids peers);
          once = λ id. omega (
            arith,
            tally-take (str_eq id) (info.exec_info.n * 2) out,
            without_ids-tally (str_eq id) filter_ids peers,
            ap (tally (str_eq id)) whole,
          );
          eligible =
              All-every _ _ (
                every-take _ _ out
                  (ap (every (is_eligible filter_ids peers)) whole ∙ all_eligible));
        }
        | inr (lucky, left, _, many, sel) ↦ record {
          count = omega (
            arith,
            length-take (info.exec_info.n * 2) out,
            Perm-length sel.perm,
            length-append out left,
            without_ids-count filter_ids peers,
          );
          once = λ id. omega (
            arith,
            tally-take (str_eq id) (info.exec_info.n * 2) out,
            tally-append (str_eq id) out left,
            Perm-tally (str_eq id) sel.perm,
            without_ids-tally (str_eq id) filter_ids peers,
          );
          eligible =
              All-every _ _ (
                every-take _ _ out
                  (every-append _ out left (Perm-every _ sel.perm ∙ all_eligible)));
        }
      ],
    )

module _ ⦃H : Host⦄ (delegator signature : Bytes) (info : TaskInfo) where
  -- The request to be an initial pinner.
  abbrev pub invitation : String → Event
  invitation peer_id =
      Event.send_message peer_id info.task_id (
        GeneralMsg.key_generation_candidate_request (signed_request delegator info false signature))

  module _ (me : H.get_my_ephemeral_id ≡ ok delegator)
      (signed : H.sign_ed25519_message (
          to_candidate_signature_bytes info.task_id info.exec_info.n info.exec_info.k
            info.exec_info.task_type delegator false)
        ≡ ok signature) where
    invite_lem :
        (peer_id : String) (w : World)
        → Ensures
            (send_key_candidate_request peer_id info false)
            w
            (λ _ w'. Sends (invitation peer_id ∷ []) w w')
    unfolding send_key_candidate_request
    invite_lem peer_id w = Ensures-bind _ _ w _ (
        Ensures-lift _ delegator w _ me
          (Ensures-bind _ _ w _ (Ensures-lift _ signature w _ signed (perform-Sends _ w))))

    invite_all_lem :
        (invited : List String) (w : World)
        → Ensures
            (for_each (λ peer_id. send_key_candidate_request peer_id info false) invited)
            w
            (λ _ w'. Sends (map invitation invited) w w')
    invite_all_lem invited w =
        for_each-Sends (λ peer_id. send_key_candidate_request peer_id info false) invitation
          (λ _. Unit) w.kv (λ peer_id v _ _. invite_lem peer_id v) invited w (all_unit invited) refl
      where
        all_unit : (xs : List String) → All (λ _. Unit {0}) xs
        all_unit [] = tt
        all_unit (x ∷ xs) = (tt, all_unit xs)

    -- If outward calls succeed: with 0 < n ≤ 255, ids that are not empty and the swarm's peers given, the
    -- delegator invites, one after the other and nobody else, as many peers as there are in the swarm that
    -- are no delegates, but 2 n at most; each is of the swarm and no delegate, and is invited no more often than
    -- it stands in the swarm. The store is left alone.
    pub invitations_total :
        (filter_ids peers : List String) (env' : H.Env) (w : World)
        → IsReliable
        → H.ipfs_swarm_peers w.env ≡ (ok peers, env')
        → 0 < info.exec_info.n
        → info.exec_info.n ≤ 255
        → IsUsable info.task_id
        → All IsUsable peers
        → (w' : World) × (invited : List String) × (invite_candidate_initial_pinners info filter_ids
              w
            ≡ (ok tt, w'))
          × IsInvited filter_ids peers info.exec_info.n invited
          × (w'.kv ≡ w.kv)
          × (w'.trace ≡ w.trace ++ map invitation invited)
    unfolding invite_candidate_initial_pinners ask
    invitations_total filter_ids peers env' w reliable swarm pos small usable usables =
        let (out, chosen, ok_invited) =
          selected-IsInvited filter_ids peers info pos small usable usables in
        let invited = take (info.exec_info.n * 2) out in
        let v : World = record w { env = env' } in
        let run = invite_all_lem invited v in
        let (_, w', e) = run.returns reliable in
        let sends = run.at tt w' e in
        (
          w',
          invited,
          bind-run (ask H.ipfs_swarm_peers) _ peers w v _
              (λ i. ((swarm i).0, record w { env = (swarm i).1 }))
              (bind-run (lift _) _ out v v _ (λ i. (chosen i, v)) e),
          ok_invited,
          sends.same,
          sends.made,
        )
