-- ===== src/Executor/Sign/Witness.antt =====
-- The witness that an executor commits, for `task_sign_with_key_slices_response_handler` of
-- executor/sign.rs.
use mathlib.Core.Path.{subst}
use gluon_actor.Base.{◌≡◌, ◌∙◌, String, some, List, [], ◌∷◌, ◌++◌, append_assoc, ok}
use gluon_actor.Base.Bytes.{Bytes}
use gluon_actor.Proto.{GeneralMsg, TaskSignWithKeySlicesResponse}
use gluon_actor.Host.{Host, World, Event, Kind, Expiry, binding_name}
use gluon_actor.Host.Rules.{
  IsLawful, IsReliable, Ensures, Ensures-bind, Ensures-lift, Ensures-kvp_set, Ensures-kvp_get_or,
  Ensures-perform, Ensures-pure,
}
use gluon_actor.Executor.StoreItem.{ExecutorStoreItem, StoreItemState}
use gluon_actor.Executor.Store.{get_task_store_item_key, get, save}
use gluon_actor.Executor.Sign.{
  get_rsa_encrypt_key, decrypt_key_slice, decrypt_key_slices,
  task_sign_with_key_slices_response_handler,
}
use gluon_actor.Storage.Keys.{Family, key_of, key_of-apart}

module _ ⦃H : Host⦄ where
  -- The key opens the slices, one by one.
  abbrev pub AreOpened : Bytes → List Bytes → List Bytes → Type 0
  AreOpened key [] [] = Unit
  AreOpened key (c ∷ cs) (s ∷ ss) = (H.rsa_decrypt key c ≡ ok s) × AreOpened key cs ss
  AreOpened key _ _ = ⊥

  -- The node can sign: it has the task's record and the RSA key that the slices are encrypted for, and the
  -- slices give the private key.
  pub record CanSign (res : TaskSignWithKeySlicesResponse) (item : ExecutorStoreItem)
      (witness : Bytes) (w : World) : Type 0 where
    pub id : item.task_info.task_id ≡ res.task_id
    pub stored :
        H.kvp_get Kind.executor_item binding_name (get_task_store_item_key res.task_id) w.kv
        ≡ ok (some item)
    pub rsa : String
    pub rsa_stored :
        H.kvp_get Kind.text binding_name (get_rsa_encrypt_key res.task_id) w.kv ≡ ok (some rsa)
    pub key : Bytes
    pub key_read : H.rsa_key_to_bytes rsa ≡ ok key
    pub slices : List Bytes
    pub opened : AreOpened key res.encrypted_key_slices slices
    pub p2_private_key : Bytes
    pub recovered : H.shamir_recovery item.task_info.exec_info.k slices ≡ ok p2_private_key
    pub p2_signature : Bytes
    pub signed : H.sign res.key_type p2_private_key res.adhoc_data ≡ ok p2_signature
    pub combined :
        H.combine_to_witness item.task_info.exec_info.k []
          (p2_signature ∷ [])
          item.task_info.exec_info.task_type
        ≡ ok witness

  decrypt_key_slices_lem :
      (id rsa : String) (key : Bytes) (ciphers slices : List Bytes) (w : World)
      (Q : List Bytes → World → Type 0)
      → H.kvp_get Kind.text binding_name (get_rsa_encrypt_key id) w.kv ≡ ok (some rsa)
      → H.rsa_key_to_bytes rsa ≡ ok key
      → AreOpened key ciphers slices
      → Q slices w
      → Ensures (decrypt_key_slices id ciphers) w Q
  unfolding decrypt_key_slices decrypt_key_slice
  decrypt_key_slices_lem id rsa key [] [] w Q found read opened q = Ensures-pure [] w Q q
  decrypt_key_slices_lem id rsa key [] (s ∷ ss) w Q found read opened q = absurd opened
  decrypt_key_slices_lem id rsa key (c ∷ cs) [] w Q found read opened q = absurd opened
  decrypt_key_slices_lem id rsa key (c ∷ cs) (s ∷ ss) w Q found read (o, os) q =
      Ensures-bind _ _ w Q (
        Ensures-bind _ _ w _ (
          Ensures-kvp_get_or Kind.text (get_rsa_encrypt_key id) _ rsa w _ found (
            Ensures-bind _ _ w _ (
              Ensures-lift _ key w _ read (
                Ensures-lift _ s w _ o (
                  Ensures-bind _ _ w Q (
                    decrypt_key_slices_lem id rsa key cs ss w _ found read os
                      (Ensures-pure (s ∷ ss) w Q q))))))))

  module _ (L : IsLawful) where
    signing_lem :
        (res : TaskSignWithKeySlicesResponse) (peer_id reply_to : String) (item : ExecutorStoreItem)
        (witness : Bytes) (w : World)
        → CanSign res item witness w
        → Ensures (task_sign_with_key_slices_response_handler res peer_id reply_to) w (λ _ w'.
          (H.kvp_get Kind.executor_item binding_name (get_task_store_item_key res.task_id) w'.kv
            ≡ ok (some (record item { state = StoreItemState.executed })))
          × (w'.trace
              ≡ w.trace
                ++ (Event.send_message peer_id res.task_id (
                      GeneralMsg.task_commit_sign_result_request
                        (record { task_id = res.task_id; witness = witness }))
                    ∷ Event.response_reply reply_to "signed successfully"
                    ∷ [])))
    unfolding task_sign_with_key_slices_response_handler get save key_of
    signing_lem res peer_id reply_to item witness w c = Ensures-bind _ _ w _ (
        Ensures-kvp_get_or Kind.executor_item (get_task_store_item_key res.task_id) _ item w _
          c.stored
          (Ensures-bind _ _ w _ (
            Ensures-kvp_set L Kind.executor_item _
              (record item { state = StoreItemState.responded }) Expiry.forever w _
              λ kv' _ others.
                let rsa_found =
                  others Kind.text (get_rsa_encrypt_key res.task_id) (
                    key_of-apart Family.executor_task Family.sign_rsa item.task_info.task_id
                      res.task_id (λ e. cc e))
                  ∙ c.rsa_stored in
                Ensures-bind _ _ _ _ (
                  decrypt_key_slices_lem res.task_id c.rsa c.key res.encrypted_key_slices c.slices _
                    _ rsa_found c.key_read c.opened
                    (Ensures-bind _ _ _ _ (
                      Ensures-lift _ c.p2_private_key _ _ c.recovered (
                        Ensures-bind _ _ _ _ (
                          Ensures-lift _ c.p2_signature _ _ c.signed (
                            Ensures-bind _ _ _ _ (
                              Ensures-lift _ witness _ _ c.combined (
                                Ensures-bind _ _ _ _ (
                                  Ensures-perform _ _ _ λ env'. Ensures-bind _ _ _ _ (
                                    Ensures-kvp_set L Kind.executor_item _
                                      (record item { state = StoreItemState.executed })
                                      Expiry.forever _ _
                                      λ kv'' found _. Ensures-perform _ _ _ λ env''. (
                                        subst
                                            (λ t.
                                              H.kvp_get Kind.executor_item binding_name
                                                (get_task_store_item_key t) kv''
                                              ≡ ok (
                                                  some (record item {
                                                    state = StoreItemState.executed;
                                                  })))
                                            c.id found,
                                        append_assoc w.trace _ _,
                                      ))))))))))))))

    -- If outward calls and writes succeed and the node can sign, the slices are handled without an error:
    -- the witness of the task, made with the private key that the slices give, goes to the peer that sent
    -- them, which is then replied to; nothing else is called, and the task is stored as executed.
    pub signing_total :
        (res : TaskSignWithKeySlicesResponse) (peer_id reply_to : String) (item : ExecutorStoreItem)
        (witness : Bytes) (w : World)
        → IsReliable
        → CanSign res item witness w
        → (w' : World) × (task_sign_with_key_slices_response_handler res peer_id reply_to w
            ≡ (ok tt, w'))
          × (H.kvp_get Kind.executor_item binding_name (get_task_store_item_key res.task_id) w'.kv
              ≡ ok (some (record item { state = StoreItemState.executed })))
          × (w'.trace
              ≡ w.trace
                ++ (Event.send_message peer_id res.task_id (
                      GeneralMsg.task_commit_sign_result_request
                        (record { task_id = res.task_id; witness = witness }))
                    ∷ Event.response_reply reply_to "signed successfully"
                    ∷ []))
    signing_total res peer_id reply_to item witness w reliable c =
        let run = signing_lem res peer_id reply_to item witness w c in
        let (_, w', e) = run.returns reliable in
        let (stored, made) = run.at tt w' e in (w', e, stored, made)
