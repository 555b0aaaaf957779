-- ===== src/InitialPinner/Slices/HandOut.antt =====
-- The slice that an initial pinner deploys is the one that a pinner hands out: `on_upload_key` of
-- initial_pinner/handler.rs and `on_deployment_info` of pinner/handler.rs.
use gluon_actor.Base.{
  ◌≡◌, refl, sym, ap, ◌∙◌, String, some, [], ◌∷◌, ◌++◌, append_assoc, Result, ok,
}
use gluon_actor.Base.Bytes.{Bytes}
use gluon_actor.Proto.{GeneralMsg, TaskPinnerKeySliceRequest, TaskSignGetPinnerKeySliceRequest}
use gluon_actor.Executor.KeyGen.Slices.{Encrypts}
use gluon_actor.Host.{Host, World, Event}
use gluon_actor.Host.Rules.{
  IsLawful, IsReliable, Ensures, Ensures-bind, Ensures-lift, Ensures-ask, Ensures-perform,
}
use gluon_actor.InitialPinner.StoreItem.{InitialPinnerStoreItem}
use gluon_actor.InitialPinner.Handlers.{on_upload_key}
use gluon_actor.Pinner.{on_deployment_info}
use gluon_actor.InitialPinner.Slices.{KeepsSlice, CanDeploy, IsDeployed, upload_lem}

module _ ⦃H : Host⦄ where
  -- The slice is sent under the RSA key of the request, and the request is replied to.
  pub record HandsOut (req : TaskSignGetPinnerKeySliceRequest) (peer_id reply_to : String)
      (slice : Bytes) (v v' : World) : Type 0 where
    pub env : H.Env
    pub encrypted_key_slice : Bytes
    pub sealed : (H.rsa_encrypt req.rsa_pub_key slice env).0 ≡ ok encrypted_key_slice
    pub sends :
        v'.trace
        ≡ v.trace
          ++ (Event.send_message peer_id req.task_id (
                GeneralMsg.task_sign_get_pinner_key_slice_response (record {
                  task_id = req.task_id;
                  encrypted_key_slice = encrypted_key_slice;
                  deployment_id = req.deployment_id;
                }))
              ∷ Event.response_reply reply_to "key slice returned"
              ∷ [])

  module _ (L : IsLawful) (slice : Bytes) (D : KeepsSlice slice) (E : Encrypts) where
    opens :
        (key1 block : Bytes) (cid : String) (put_env env : H.Env) (b : Bytes) (env1 : H.Env)
        → H.aes_encrypt key1 slice ≡ ok block
        → (H.ipfs_block_put block put_env).0 ≡ ok cid
        → H.ipfs_block_get cid env ≡ (ok b, env1)
        → H.aes_decrypt key1 b ≡ ok slice
    opens key1 block cid put_env env b env1 sealed put got =
        let found = D.gets key1 block cid put_env env sealed put in
        let back = D.decrypts key1 block sealed in
        let same : ok b ≡ ok block = sym (ap (λ (p : Result Bytes × H.Env). p.0) got) ∙ found in cc

    -- What the pinner sends for the slice.
    hand_out_lem :
        (req : TaskSignGetPinnerKeySliceRequest) (peer_id reply_to : String) (cid : String)
        (key1 block : Bytes) (put_env : H.Env) (v : World)
        → H.aes_encrypt key1 slice ≡ ok block
        → (H.ipfs_block_put block put_env).0 ≡ ok cid
        → Ensures
            (on_deployment_info req peer_id reply_to (some cid) (some key1))
            v
            (λ _ v'. HandsOut req peer_id reply_to slice v v')
    unfolding on_deployment_info Encrypts
    hand_out_lem req peer_id reply_to cid key1 block put_env v sealed put = Ensures-bind _ _ v _ (
        Ensures-lift _ key1 v _ refl (
          Ensures-bind _ _ v _ (
            Ensures-lift _ cid v _ refl (
              Ensures-bind _ _ v _ (
                Ensures-ask (H.ipfs_block_get cid) v _
                  (λ _. (block, D.gets key1 block cid put_env v.env sealed put))
                  λ b env1 got. Ensures-bind _ _ _ _ (
                    Ensures-lift _ slice _ _
                      (opens key1 block cid put_env v.env b env1 sealed put got)
                      (Ensures-bind _ _ _ _ (
                        Ensures-ask (H.rsa_encrypt req.rsa_pub_key slice) _ _
                          (λ _. E req.rsa_pub_key slice env1)
                          λ c env2 enc. Ensures-bind _ _ _ _ (
                            Ensures-perform _ _ _ λ env3. Ensures-perform _ _ _ λ env4. record {
                              env = env1;
                              encrypted_key_slice = c;
                              sealed = ap (λ (p : Result Bytes × H.Env). p.0) enc;
                              sends =
                                  append_assoc v.trace
                                    (Event.send_message peer_id req.task_id (
                                        GeneralMsg.task_sign_get_pinner_key_slice_response (record {
                                          task_id = req.task_id;
                                          encrypted_key_slice = c;
                                          deployment_id = req.deployment_id;
                                        }))
                                      ∷ [])
                                    (Event.response_reply reply_to "key slice returned" ∷ []);
                            })))))))))

    -- On a node whose calls answer, an initial pinner that holds the RSA key of its slice, and has the
    -- pinner actor's RSA key, deploys the slice: the data is in IPFS under a CID that the node stores, and
    -- the pinner actor is told the CID and, sealed, the AES key. A pinner that is told this CID and this
    -- key hands out the same slice: it sends it to the peer that asked, sealed with the RSA key of the
    -- request, and replies. Assumed: AES keys are made, AES encryption of the slice succeeds and decryption
    -- inverts it, IPFS takes the encrypted slice and gives it back, requests can be encoded, RSA encryption
    -- succeeds, and the store gives back what it was given.
    pub deploy_then_hand_out_total :
        (session_id : String) (req : TaskPinnerKeySliceRequest) (item : InitialPinnerStoreItem)
        (peer_id reply_to : String) (body : Bytes) (asked : TaskSignGetPinnerKeySliceRequest)
        (peer reply : String) (w v : World)
        → IsReliable
        → (c : CanDeploy req body slice w)
        → (cid : String) × (key1 : Bytes) × (w' v' : World) × (on_upload_key session_id req item
              peer_id reply_to body w
            ≡ (ok tt, w'))
          × IsDeployed session_id req item peer_id reply_to slice c.upload_key cid key1 w w'
          × (on_deployment_info asked peer reply (some cid) (some key1) v ≡ (ok tt, v'))
          × HandsOut asked peer reply slice v v'
    deploy_then_hand_out_total session_id req item peer_id reply_to body asked peer reply w v
          reliable c =
        let deploys = upload_lem L slice D E session_id req item peer_id reply_to body w c in
        let (u, w', ran) = deploys.returns reliable in
        let (cid, key1, deployed) = deploys.at u w' ran in
        let hands =
          hand_out_lem asked peer reply cid key1 deployed.block deployed.put_env v deployed.sealed
            deployed.put in
        let (u', v', ran') = hands.returns reliable in
        (cid, key1, w', v', ran, deployed, ran', hands.at u' v' ran')
