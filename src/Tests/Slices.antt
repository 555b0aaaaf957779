-- ===== src/Tests/Slices.antt =====
-- The theorem on the slices that are deployed and handed out, at a concrete slice.
use gluon_actor.Base.{◌≡◌, refl, sym, some, String, [], ◌∷◌, ok}
use gluon_actor.Base.Bytes.{Bytes, as_bytes}
use gluon_actor.Base.HashMap
use gluon_actor.Proto.{TaskPinnerKeySliceRequest, TaskSignGetPinnerKeySliceRequest}
use gluon_actor.Host.{World, Kind}
use gluon_actor.Executor.KeyGen.Slices.{Encrypts}
use gluon_actor.InitialPinner.StoreItem as InitialPinnerItem
use gluon_actor.InitialPinner.StoreItem.{InitialPinnerStoreItem}
use gluon_actor.InitialPinner.Handlers.{on_upload_key}
use gluon_actor.InitialPinner.Slices.{KeepsSlice, CanDeploy, IsDeployed}
use gluon_actor.InitialPinner.Slices.HandOut.{HandsOut, deploy_then_hand_out_total}
use gluon_actor.Common.KeyGeneration.{get_rsa_encrypt_key}
use gluon_actor.Pinner.{on_deployment_info}
use gluon_actor.Tests.Memory.{memory, memory-IsLawful, memory-IsReliable, value}
use gluon_actor.Tests.Data.{two_of_three, invited_world}

abbrev slice_request : TaskPinnerKeySliceRequest
slice_request = record {
  task_id = "AQ==";
  public_key = 4 ∷ [];
  encrypted_key_slice = 3 ∷ [];
  multi_sig_account = 6 ∷ [];
}

abbrev sign_slice_request : TaskSignGetPinnerKeySliceRequest
sign_slice_request = record { task_id = "Ag=="; rsa_pub_key = 5 ∷ []; deployment_id = "deployment" }

abbrev responded : InitialPinnerStoreItem
responded = record { task_info = two_of_three; state = InitialPinnerItem.StoreItemState.responded }

abbrev pinner_world : World ⦃H = memory⦄
pinner_world = record {
  kv = ("key_gen_rsa_key_AQ==", value Kind.text "private") ∷ [];
  env = tt;
  trace = [];
}

memory-KeepsSlice : KeepsSlice ⦃H = memory⦄ (3 ∷ [])
memory-KeepsSlice = record {
  makes_key = λ env. ([], refl);
  encrypts = λ key. (3 ∷ [], refl);
  decrypts = λ key block sealed. sym sealed;
  puts = λ key block env sealed. ("cid", refl);
  gets = λ key block cid env env' sealed put. sealed;
  encodes = λ r. ([], refl);
}

memory-Encrypts : Encrypts ⦃H = memory⦄
unfolding Encrypts
memory-Encrypts key b env = (b, refl)

responded-CanDeploy : CanDeploy ⦃H = memory⦄ slice_request [] (3 ∷ []) pinner_world
unfolding get_rsa_encrypt_key HashMap.get
responded-CanDeploy = record {
  rsa = "private";
  stored = refl;
  key = as_bytes "private";
  read = refl;
  opened = refl;
  pk_str = "text";
  decoded = refl;
  upload_key = as_bytes "text";
  upload_key_read = refl;
}

deploy_then_hand_out_total_example :
    (cid : String) × (key1 : Bytes) × (w' v' : World ⦃H = memory⦄) × (on_upload_key ⦃H = memory⦄
        "session" slice_request responded "A" "reply" [] pinner_world
      ≡ (ok tt, w'))
    × IsDeployed ⦃H = memory⦄ "session" slice_request responded "A" "reply"
        (3 ∷ [])
        responded-CanDeploy.upload_key
        cid
        key1
        pinner_world
        w'
    × (on_deployment_info ⦃H = memory⦄ sign_slice_request "B" "answer"
          (some cid)
          (some key1)
          invited_world
        ≡ (ok tt, v'))
    × HandsOut ⦃H = memory⦄ sign_slice_request "B" "answer" (3 ∷ []) invited_world v'
deploy_then_hand_out_total_example =
    deploy_then_hand_out_total ⦃H = memory⦄ memory-IsLawful (3 ∷ []) memory-KeepsSlice
      memory-Encrypts "session" slice_request responded "A" "reply" [] sign_slice_request "B"
      "answer" pinner_world invited_world memory-IsReliable responded-CanDeploy
