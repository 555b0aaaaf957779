-- ===== src/InitialPinner/Slices.antt =====
-- How an initial pinner deploys its slice: `deploy_key_slice` of initial_pinner/handler.rs.
pub mod HandOut
use gluon_actor.Base.{
  ◌≡◌, refl, sym, ap, ◌∙◌, String, ◌<>◌, none, some, List, [], ◌∷◌, ◌++◌, append_assoc, Result, ok,
  Error,
}
use gluon_actor.Base.Bytes.{Bytes}
use gluon_actor.Proto.{
  GeneralMsg, Request, TaskPinnerKeySliceRequest, TaskSignGetPinnerKeySliceRequest,
}
use gluon_actor.Common.KeyGeneration.{decrypt_key_slice, get_rsa_encrypt_key}
use gluon_actor.Executor.KeyGen.Slices.{Encrypts}
use gluon_actor.Host.{
  Host, World, M, Event, Kind, Expiry, kvp_set, lift, ask, perform, ◌>>=◌, ◌>>◌, binding_name,
}
use gluon_actor.Host.Callbacks.{processed_data_upload}
use gluon_actor.Host.Rules.{
  IsLawful, IsReliable, Ensures, Ensures-bind, Ensures-lift, Ensures-ask, Ensures-kvp_set,
  Ensures-kvp_get_or, Ensures-perform, Ensures-mono,
}
use gluon_actor.InitialPinner.StoreItem.{InitialPinnerStoreItem}
use gluon_actor.InitialPinner.Handlers.{get_temp_data_cid_key, on_upload_key}
use gluon_actor.Pinner.{on_deployment_info}

module _ ⦃H : Host⦄ where
  -- AES keys are made, the slice can be encrypted, and decryption with the same key gives it back; IPFS takes
  -- its encrypted form, and gives it back for its CID; requests can be encoded.
  pub record KeepsSlice (slice : Bytes) : Type 0 where
    pub makes_key : (env : H.Env) → (key : Bytes) × ((H.generate_aes_key env).0 ≡ ok key)
    pub encrypts : (key : Bytes) → (block : Bytes) × (H.aes_encrypt key slice ≡ ok block)
    pub decrypts :
        (key block : Bytes)
        → H.aes_encrypt key slice ≡ ok block
        → H.aes_decrypt key block ≡ ok slice
    pub puts :
        (key block : Bytes) (env : H.Env)
        → H.aes_encrypt key slice ≡ ok block
        → (cid : String) × ((H.ipfs_block_put block env).0 ≡ ok cid)
    pub gets :
        (key block : Bytes) (cid : String) (env env' : H.Env)
        → H.aes_encrypt key slice ≡ ok block
        → (H.ipfs_block_put block env).0 ≡ ok cid
        → (H.ipfs_block_get cid env').0 ≡ ok block
    pub encodes : (r : Request) → (b : Bytes) × (H.encode_protobuf r ≡ ok b)

  -- The node has the RSA key for the slice, and the pinner actor's answer holds an RSA key.
  pub record CanDeploy (req : TaskPinnerKeySliceRequest) (body slice : Bytes) (w : World)
      : Type 0 where
    pub rsa : String
    pub stored :
        H.kvp_get Kind.text binding_name (get_rsa_encrypt_key req.task_id) w.kv ≡ ok (some rsa)
    pub key : Bytes
    pub read : H.rsa_key_to_bytes rsa ≡ ok key
    pub opened : H.rsa_decrypt key req.encrypted_key_slice ≡ ok slice
    pub pk_str : String
    pub decoded : H.from_utf8 body ≡ ok pk_str
    pub upload_key : Bytes
    pub upload_key_read : H.rsa_key_to_bytes pk_str ≡ ok upload_key

  -- The data is in IPFS under the CID, and the key that opens it is told to the pinner actor.
  pub record IsDeployed (session_id : String) (req : TaskPinnerKeySliceRequest)
      (item : InitialPinnerStoreItem) (peer_id reply_to : String) (slice upload_key : Bytes)
      (cid : String) (key1 : Bytes) (w w' : World) : Type 0 where
    pub block : Bytes
    pub sealed : H.aes_encrypt key1 slice ≡ ok block
    pub put_env : H.Env
    pub put : (H.ipfs_block_put block put_env).0 ≡ ok cid
    pub cid_stored :
        H.kvp_get Kind.text binding_name (get_temp_data_cid_key req.multi_sig_account) w'.kv
        ≡ ok (some cid)
    pub told_env : H.Env
    pub encrypted_key1 : Bytes
    pub told : (H.rsa_encrypt upload_key key1 told_env).0 ≡ ok encrypted_key1
    pub request : Bytes
    pub encoded :
        H.encode_protobuf (Request.data_upload_completed cid (H.base64_encode encrypted_key1))
        ≡ ok request
    pub uploads :
        w'.trace
        ≡ w.trace
          ++ (Event.call_async_intercom
                ("actor.pinner.intercom.process_data_upload." <> session_id)
                request
                (processed_data_upload req item peer_id reply_to)
              ∷ [])

  -- The end of `on_upload_key`.
  abbrev store_cid :
      String
      → TaskPinnerKeySliceRequest
      → InitialPinnerStoreItem
      → String
      → String
      → Bytes
      → String
      → Bytes
      → M (Unit {0})
  store_cid session_id req item peer_id reply_to body data_cid key1 = do
    kvp_set Kind.text binding_name (get_temp_data_cid_key req.multi_sig_account) data_cid
        (Expiry.seconds 6000)
    pk_str ← lift (H.from_utf8 body)
    rsa_pub_key ← lift (H.rsa_key_to_bytes pk_str)
    encrypted_key1 ← ask (H.rsa_encrypt rsa_pub_key key1)
    request ← lift (
        H.encode_protobuf (Request.data_upload_completed data_cid (H.base64_encode encrypted_key1)))
    perform (
        Event.call_async_intercom ("actor.pinner.intercom.process_data_upload." <> session_id)
          request (processed_data_upload req item peer_id reply_to))

  module _ (L : IsLawful) (slice : Bytes) (D : KeepsSlice slice) (E : Encrypts) where
    -- What follows once the data is in IPFS.
    store_lem :
        (session_id : String) (req : TaskPinnerKeySliceRequest) (item : InitialPinnerStoreItem)
        (peer_id reply_to : String) (body : Bytes) (cid : String) (key1 block : Bytes) (env : H.Env)
        (w v : World)
        → (c : CanDeploy req body slice w) → v.trace ≡ w.trace
        → H.aes_encrypt key1 slice ≡ ok block
        → (H.ipfs_block_put block env).0 ≡ ok cid
        → Ensures (store_cid session_id req item peer_id reply_to body cid key1) v (λ _ w'.
          (cid : String) × (key1 : Bytes) × IsDeployed session_id req item peer_id reply_to slice
            c.upload_key cid key1 w w')
    unfolding Encrypts
    store_lem session_id req item peer_id reply_to body cid key1 block env w v c same sealed put =
        Ensures-bind _ _ v _ (
          Ensures-kvp_set L Kind.text _ cid _ v _ λ kv' found _. Ensures-bind _ _ _ _ (
            Ensures-lift _ c.pk_str _ _ c.decoded (
              Ensures-bind _ _ _ _ (
                Ensures-lift _ c.upload_key _ _ c.upload_key_read (
                  Ensures-bind _ _ _ _ (
                    Ensures-ask (H.rsa_encrypt c.upload_key key1) _ _
                      (λ _. E c.upload_key key1 v.env)
                      λ enc env' told.
                        let (request, encoded) =
                          D.encodes (Request.data_upload_completed cid (H.base64_encode enc)) in
                        Ensures-bind _ _ _ _ (
                          Ensures-lift _ request _ _ encoded (
                            Ensures-perform _ _ _ λ env''. (
                              cid,
                              key1,
                              record {
                                block = block;
                                sealed = sealed;
                                put_env = env;
                                put = put;
                                cid_stored = found;
                                told_env = v.env;
                                encrypted_key1 = enc;
                                told = ap (λ (p : Result Bytes × H.Env). p.0) told;
                                request = request;
                                encoded = encoded;
                                uploads =
                                    ap
                                      (λ (t : List Event).
                                        t
                                        ++ (Event.call_async_intercom
                                              ("actor.pinner.intercom.process_data_upload."
                                                <> session_id)
                                              request
                                              (processed_data_upload req item peer_id reply_to)
                                            ∷ []))
                                      same;
                              },
                            )))))))))

    pub upload_lem :
        (session_id : String) (req : TaskPinnerKeySliceRequest) (item : InitialPinnerStoreItem)
        (peer_id reply_to : String) (body : Bytes) (w : World)
        → (c : CanDeploy req body slice w)
        → Ensures (on_upload_key session_id req item peer_id reply_to body) w (λ _ w'.
          (cid : String) × (key1 : Bytes) × IsDeployed session_id req item peer_id reply_to slice
            c.upload_key cid key1 w w')
    unfolding on_upload_key decrypt_key_slice Encrypts
    upload_lem session_id req item peer_id reply_to body w c = Ensures-bind _ _ w _ (
        Ensures-bind _ _ w _ (
          Ensures-kvp_get_or Kind.text _ _ c.rsa w _ c.stored (
            Ensures-bind _ _ w _ (
              Ensures-lift _ c.key w _ c.read (
                Ensures-lift _ slice w _ c.opened (
                  Ensures-bind _ _ w _ (
                    Ensures-ask H.generate_aes_key w _ (λ _. D.makes_key w.env)
                      λ key1 env1 _.
                        let (block, sealed) = D.encrypts key1 in
                        Ensures-bind _ _ _ _ (
                          Ensures-lift _ block _ _ sealed (
                            Ensures-bind _ _ _ _ (
                              Ensures-ask (H.ipfs_block_put block) _ _
                                (λ _. D.puts key1 block env1 sealed)
                                λ cid env2 put.
                                  store_lem session_id req item peer_id reply_to body cid key1 block
                                    env1 w (record w { env = env2 }) c refl sealed
                                    (ap (λ (p : Result String × H.Env). p.0) put)))))))))))
