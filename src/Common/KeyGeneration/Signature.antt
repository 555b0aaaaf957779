-- ===== src/Common/KeyGeneration/Signature.antt =====
-- What the signature of a candidate request covers, for `to_candidate_signature_bytes`,
-- `send_key_candidate_request` and `verify_to_candidate_signature` of common/key_generation.rs.
use gluon_actor.Base.{
  ℕ, ◌/◌, ◌%◌, ◌<◌, ◌≡◌, refl, ap, Bool, true, false, String, [], ◌∷◌, ◌++◌, ok, arith, length,
  length-append,
}
use gluon_actor.Base.Bytes.{Bytes, as_bytes, to_le_bytes}
use gluon_actor.Proto.{GeneralMsg, KeyGenerationCandidateRequest}
use gluon_actor.Common.TaskInfo.{TaskInfo}
use gluon_actor.Common.KeyGeneration.{
  flag_byte, to_candidate_signature_bytes, send_key_candidate_request,
  verify_to_candidate_signature,
}
use gluon_actor.Host.{Host, World, Event, perform, ◌>>=◌}
use gluon_actor.Host.Callbacks.{Role, got_delegator_profile}

append-injective :
    (xs xs' ys ys' : Bytes)
    → length xs ≡ length xs'
    → xs ++ ys ≡ xs' ++ ys'
    → (xs ≡ xs') × (ys ≡ ys')
append-injective [] [] ys ys' l e = (refl, e)
append-injective [] (x ∷ xs') ys ys' l e = absurd (omega (arith, l))
append-injective (x ∷ xs) [] ys ys' l e = absurd (omega (arith, l))
append-injective (x ∷ xs) (y ∷ xs') ys ys' l e =
    let head : x ≡ y = cc e in
    let tail : xs ++ ys ≡ xs' ++ ys' = cc e in
    let (p, q) = append-injective xs xs' ys ys' (omega arith) tail in (cc (head, p), q)

to_le_bytes_injective :
    (n m : ℕ) → n < 4294967296 → m < 4294967296 → to_le_bytes n ≡ to_le_bytes m → n ≡ m
unfolding to_le_bytes
to_le_bytes_injective n m a b e =
    let b0 : n % 256 ≡ m % 256 = cc e in
    let b1 : n / 256 % 256 ≡ m / 256 % 256 = cc e in
    let b2 : n / 65536 % 256 ≡ m / 65536 % 256 = cc e in
    let b3 : n / 16777216 % 256 ≡ m / 16777216 % 256 = cc e in omega arith

length-to_le_bytes : (n m : ℕ) → length (to_le_bytes n) ≡ length (to_le_bytes m)
unfolding to_le_bytes
length-to_le_bytes n m = refl

flag_byte_injective : (a b : Bool) → flag_byte a ≡ flag_byte b → a ≡ b
flag_byte_injective true true e = refl
flag_byte_injective false false e = refl
flag_byte_injective true false e = absurd (omega (arith, e))
flag_byte_injective false true e = absurd (omega (arith, e))

last-injective : (xs ys : Bytes) (a b : ℕ) → xs ++ (a ∷ []) ≡ ys ++ (b ∷ []) → (xs ≡ ys) × (a ≡ b)
last-injective xs ys a b e =
    let size : length (xs ++ (a ∷ [])) ≡ length (ys ++ (b ∷ [])) = ap (length {A = ℕ}) e in
    let (p, q) =
      append-injective xs ys (a ∷ []) (b ∷ [])
        (omega (arith, length-append xs (a ∷ []), length-append ys (b ∷ []))) e in
    (p, cc q)

-- Two lists of arguments whose numbers fit 32 bits, whose task ids are equally long as bytes and whose key
-- types are, and that are signed as the same bytes, are the same: numbers, delegator and role, and the
-- bytes of the texts.
pub to_candidate_signature_bytes_injective :
    (id id' : String) (n n' k k' : ℕ) (key_type key_type' : String) (delegator delegator' : Bytes)
    (executor executor' : Bool)
    → (n < 4294967296) × (n' < 4294967296) × (k < 4294967296) × (k' < 4294967296)
    → length (as_bytes id) ≡ length (as_bytes id')
    → length (as_bytes key_type) ≡ length (as_bytes key_type')
    → to_candidate_signature_bytes id n k key_type delegator executor
      ≡ to_candidate_signature_bytes id' n' k' key_type' delegator' executor'
    → (as_bytes id ≡ as_bytes id')
      × (n ≡ n')
      × (k ≡ k')
      × (as_bytes key_type ≡ as_bytes key_type')
      × (delegator ≡ delegator')
      × (executor ≡ executor')
unfolding to_candidate_signature_bytes
to_candidate_signature_bytes_injective id id' n n' k k' key_type key_type' delegator delegator'
      executor executor' (bn, bn', bk, bk') ids types e =
    let (i, e1) = append-injective (as_bytes id) (as_bytes id') _ _ ids e in
    let (p, e2) =
      append-injective (to_le_bytes n) (to_le_bytes n') _ _ (length-to_le_bytes n n') e1 in
    let (q, e3) =
      append-injective (to_le_bytes k) (to_le_bytes k') _ _ (length-to_le_bytes k k') e2 in
    let (t, e4) = append-injective (as_bytes key_type) (as_bytes key_type') _ _ types e3 in
    let (d, f) = last-injective delegator delegator' _ _ e4 in
    (
      i,
      to_le_bytes_injective n n' bn bn' p,
      to_le_bytes_injective k k' bk bk' q,
      t,
      d,
      flag_byte_injective executor executor' f,
    )

module _ ⦃H : Host⦄ (delegator : Bytes) where
  -- The request that goes to a candidate.
  abbrev pub signed_request : TaskInfo → Bool → Bytes → KeyGenerationCandidateRequest
  signed_request info executor signature = record {
    task_id = info.task_id;
    n = info.exec_info.n;
    k = info.exec_info.k;
    key_type = info.exec_info.task_type;
    delegator_ephemeral_id = delegator;
    executor = executor;
    signature = signature;
  }

  -- The request that a delegator sends to a candidate passes the candidate's verification, whatever the
  -- role that it asks for, and the candidate then looks up the delegator's profile; if the signing key
  -- belongs to the delegator's id, so that what it signed verifies under that id.
  pub candidate_request_verifies :
      (info : TaskInfo) (executor : Bool) (signature : Bytes) (peer_id sender : String)
      (role : Role) (w v : World)
      → H.get_my_ephemeral_id ≡ ok delegator
      → ((m s : Bytes)
          → H.sign_ed25519_message m ≡ ok s
          → H.verify_ed25519_signature delegator m s ≡ ok true)
      → H.sign_ed25519_message (
          to_candidate_signature_bytes info.task_id info.exec_info.n info.exec_info.k
            info.exec_info.task_type delegator executor)
        ≡ ok signature
      → (send_key_candidate_request peer_id info executor w
          ≡ perform
              (Event.send_message peer_id info.task_id (
                GeneralMsg.key_generation_candidate_request
                  (signed_request info executor signature)))
              w)
        × (verify_to_candidate_signature sender (signed_request info executor signature) role v
            ≡ perform
                (Event.lookup_node_profile delegator
                  (got_delegator_profile sender (signed_request info executor signature) role))
                v)
  unfolding send_key_candidate_request verify_to_candidate_signature ◌>>=◌
  candidate_request_verifies info executor signature peer_id sender role w v me verifies signed =
      (rw (me, signed) refl, rw (verifies _ signature signed) refl)
