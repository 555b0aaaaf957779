-- ===== src/Delegator/KeyGen/Answers/Update.antt =====
-- The update of layer 1 once every initial pinner has answered, for
-- `process_task_pinner_key_slice_response` of delegator/key_gen.rs.
use gluon_actor.Base.{
  ◌≡◌, ◌≢◌, refl, sym, ap, ◌∙◌, true, false, String, Option, none, some, List, [], ◌∷◌, ◌++◌,
  append_assoc, Result, ok, is_some, All,
}
use gluon_actor.Base.Bytes.{Bytes, as_bytes}
use gluon_actor.Base.HashMap
use gluon_actor.Base.HashMap.{HashMap, get-insert}
use gluon_actor.Proto.{Request, UpdateKeyGenerationResult}
use gluon_actor.Common.Utils.{for_each}
use gluon_actor.Host.{Host, World, M, Event, lift, ◌>>◌}
use gluon_actor.Host.Callbacks.{got_update_result}
use gluon_actor.Host.Rules.{
  IsLawful, IsReliable, Ensures, Ensures-bind, Ensures-lift, Ensures-mono, Ensures-if,
  Ensures-perform,
}
use gluon_actor.Delegator.KeyGen.StoreItem.{
  all_answered, is_all_initial_pinners_ready, answers, to_result,
}
use gluon_actor.Delegator.KeyGen.Store.{save}
use gluon_actor.Delegator.KeyGen.Handlers.{after_answer}
use gluon_actor.Delegator.KeyGen.Arrivals.{Holds, Ensures-save}
use gluon_actor.Delegator.KeyGen.Answers.{
  Item, Answer, answered, completed, Holds-named, Holds-kv, answer, replies, answer_lem,
  partial_answers_lem,
}

-- Every pinner has answered, and these are the deployments, one for each pinner, in the entries' order.
abbrev pub AreDeployments : HashMap (Option String) → List String → Type 0
AreDeployments [] [] = Unit
AreDeployments ((_, answer) ∷ m) (id ∷ ids) = (answer ≡ some id) × AreDeployments m ids
AreDeployments _ _ = ⊥

answers-AreDeployments :
    (m : HashMap (Option String)) → all_answered m ≡ true → AreDeployments m (answers m)
unfolding answers all_answered
answers-AreDeployments [] h = tt
answers-AreDeployments ((_, none) ∷ m) h = absurd cc
answers-AreDeployments ((_, some v) ∷ m) h = (refl, answers-AreDeployments m h)

AreDeployments-all :
    (m : HashMap (Option String)) (ids : List String)
    → AreDeployments m ids
    → (all_answered m ≡ true) × (answers m ≡ ids)
unfolding answers all_answered
AreDeployments-all [] [] h = (refl, refl)
AreDeployments-all [] (id ∷ ids) h = absurd h
AreDeployments-all ((_, answer) ∷ m) [] h = absurd h
AreDeployments-all ((_, none) ∷ m) (id ∷ ids) (e, h) = absurd cc
AreDeployments-all ((_, some v) ∷ m) (id ∷ ids) (e, h) =
    let (all_, same) = AreDeployments-all m ids h in
    let v_id : v ≡ id = cc in (all_, λ i. v_id i ∷ same i)

pub deployments_of :
    (m : HashMap (Option String))
    → all_answered m ≡ true
    → (ids : List String) × AreDeployments m ids
deployments_of m h = (answers m, answers-AreDeployments m h)

-- The result that the item stands for, with these deployments.
abbrev pub result_of : Bytes → Bytes → Bytes → List String → Item → UpdateKeyGenerationResult
result_of task account key ids item = record {
  task_id = task;
  delegator_nonce = item.nonce;
  multi_sig_account = account;
  public_key = key;
  deployment_ids = ids;
}

-- The item with all answers.
abbrev pub final : Item → List Answer → Answer → Item
final item rest last = answered (answered item rest) (last ∷ [])

to_result-ok :
    (decode : String → Result Bytes) (item : Item) (task account key : Bytes)
    → decode item.task_info.task_id ≡ ok task
    → item.multi_sig_account ≡ some account
    → item.p2_public_key ≡ some key
    → to_result decode (completed item)
      ≡ ok (result_of task account key (answers item.initial_pinner_responses) item)
unfolding to_result
to_result-ok decode item task account key t a k = rw (t, a, k, to_result) refl

known_of_missing : (o : Option (Option String)) → o ≡ some none → is_some o ≡ true
known_of_missing o h = rw h refl

module _ ⦃H : Host⦄ (task_id reply_to : String) where
  -- The call with which layer 1 is told the result.
  abbrev pub update_call : Bytes → Event
  update_call body =
      Event.call "layer1.async.reply.update_generate_key_result" (as_bytes (H.base64_encode body))
        (got_update_result task_id)

  -- Some answers, and one more.
  abbrev pub answers_then : List Answer → Answer → M (Unit {0})
  answers_then rest last = do for_each (answer task_id reply_to) rest; answer task_id reply_to last

  module _ (L : IsLawful) where
    -- The last answer: the task is stored, and layer 1 is called.
    last_lem :
        (item : Item) (result : UpdateKeyGenerationResult) (body : Bytes) (w : World)
        → item.task_info.task_id ≡ task_id
        → all_answered item.initial_pinner_responses ≡ true
        → to_result H.base64_decode (completed item) ≡ ok result
        → H.encode_protobuf (Request.update_key_generation_result result) ≡ ok body
        → Ensures (after_answer reply_to item) w (λ _ w'.
          Holds task_id (completed item) w'
          × (w'.trace
              ≡ w.trace
                ++ (Event.call "layer1.async.reply.update_generate_key_result"
                      (as_bytes (H.base64_encode body))
                      (got_update_result item.task_info.task_id)
                    ∷ [])))
    unfolding after_answer is_all_initial_pinners_ready
    last_lem item result body w id all_ update encoded =
        Ensures-if (is_all_initial_pinners_ready item) _ _ w _
          (λ _. Ensures-bind (save (completed item)) _ w _ (
            Ensures-save L (completed item) w _ λ kv' saved.
              Ensures-bind (lift (to_result H.base64_decode (completed item))) _ _ _ (
                Ensures-lift _ result _ _ update (
                  Ensures-bind
                    (lift (H.encode_protobuf (Request.update_key_generation_result result))) _ _ _
                    (Ensures-lift _ body _ _ encoded (
                      Ensures-perform _ _ _ λ env'. (
                        Holds-kv task_id reply_to (completed item) (record w { kv = kv' }) _ refl
                            (Holds-named task_id reply_to (completed item) _ id saved),
                        refl,
                      )))))))
          (λ bad. absurd (no (sym bad ∙ all_)))
      where
        no : false ≡ true → ⊥
        no e = cc

    answers_then_lem :
        (rest : List Answer) (last : Answer) (item : Item) (task account key body : Bytes)
        (w : World)
        → Holds task_id item w
        → HashMap.get item.initial_pinner_responses last.0 ≡ some none
        → All (λ (a : Answer). is_some (HashMap.get item.initial_pinner_responses a.0) ≡ true) rest
        → All (λ (a : Answer). a.0 ≢ last.0) rest
        → all_answered (final item rest last).initial_pinner_responses ≡ true
        → H.base64_decode item.task_info.task_id ≡ ok task
        → item.multi_sig_account ≡ some account
        → item.p2_public_key ≡ some key
        → H.encode_protobuf (
            Request.update_key_generation_result (
              result_of task account key
                (answers (final item rest last).initial_pinner_responses)
                (final item rest last)))
          ≡ ok body
        → Ensures (answers_then rest last) w (λ _ w'.
          Holds task_id (completed (final item rest last)) w'
          × (w'.trace ≡ w.trace ++ (replies task_id reply_to rest ++ (update_call body ∷ []))))
    answers_then_lem rest last item task account key body w held missing known others all_ decoded
          acc pub_key encoded =
        Ensures-bind (for_each (answer task_id reply_to) rest) _ w _ (
          Ensures-mono (for_each (answer task_id reply_to) rest) w _ _
            (λ _ v (held', left, made).
              answer_lem task_id reply_to last (answered item rest) v _ held'
                (known_of_missing _ left)
                (Ensures-mono (after_answer reply_to (final item rest last)) v _ _
                  (λ _ u (held'', made'). (
                    held'',
                    made'
                        ∙ rw (made, held.id)
                            (append_assoc w.trace (replies task_id reply_to rest)
                              (update_call body ∷ [])),
                  ))
                  (last_lem (final item rest last)
                    (result_of task account key
                      (answers (final item rest last).initial_pinner_responses)
                      (final item rest last))
                    body v held.id all_
                    (to_result-ok H.base64_decode (final item rest last) task account key decoded
                      acc pub_key)
                    encoded)))
            (partial_answers_lem task_id reply_to L rest item last.0 w held missing known others))

    -- If outward calls and writes succeed: the pinners of a stored task answer, in any order and possibly
    -- more than once, and one whose answer is missing answers last. If then every pinner has answered, all
    -- answers are handled without an error: each but the last is replied to and nothing else is called, and
    -- the last makes the one call to layer 1, with one deployment for each pinner, its own. The task is stored
    -- as complete. The task's id decodes, its account and key are set, and the result can be encoded.
    pub answers_then_total :
        (rest : List Answer) (last : Answer) (item : Item) (ids : List String)
        (task account key body : Bytes) (w : World)
        → IsReliable
        → Holds task_id item w
        → HashMap.get item.initial_pinner_responses last.0 ≡ some none
        → All (λ (a : Answer). is_some (HashMap.get item.initial_pinner_responses a.0) ≡ true) rest
        → All (λ (a : Answer). a.0 ≢ last.0) rest
        → AreDeployments (final item rest last).initial_pinner_responses ids
        → H.base64_decode item.task_info.task_id ≡ ok task
        → item.multi_sig_account ≡ some account
        → item.p2_public_key ≡ some key
        → H.encode_protobuf (
            Request.update_key_generation_result
              (result_of task account key ids (final item rest last)))
          ≡ ok body
        → (w' : World) × (answers_then rest last w ≡ (ok tt, w'))
          × Holds task_id (completed (final item rest last)) w'
          × (w'.trace ≡ w.trace ++ (replies task_id reply_to rest ++ (update_call body ∷ [])))
    answers_then_total rest last item ids task account key body w reliable held missing known others
          these decoded acc pub_key encoded =
        let (all_, same) = AreDeployments-all _ ids these in
        let run =
          answers_then_lem rest last item task account key body w held missing known others all_
            decoded acc pub_key
            (ap
                (λ (ds : List String). H.encode_protobuf (
                  Request.update_key_generation_result
                    (result_of task account key ds (final item rest last))))
                same
              ∙ encoded) in
        let (_, w', e) = run.returns reliable in
        let (stored, made) = run.at tt w' e in (w', e, stored, made)
