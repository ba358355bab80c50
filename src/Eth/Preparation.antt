-- ===== src/Eth/Preparation.antt =====
-- eth/eth.go: what ExecuteTransaction prepares before it sends.
use drb_node.Base.{ℕ, ◌^◌, ◌<◌, ◌≡◌, refl, subst, Bytes, Option, none, some, List, arith}
use drb_node.Eth.{
  Transaction, Failure, network_id_failed, transactor_failed, nonce_failed, gas_price_failed,
  pack_failed, sign_failed, Outcome, done, failed, ◌>>=◌, or_failed, Client, nonce_field, Prepared,
  prepare,
}

>>=-eq-done :
    {A B : Type 0} (m : Outcome A) (f : A → Outcome B) {b : B}
    → (m >>= f) ≡ done b
    → (a : A) × (m ≡ done a) × (f a ≡ done b)
>>=-eq-done (done a) f h = (a, refl, h)
>>=-eq-done (failed e) f h = cc

or_failed-eq-done :
    {A : Type 0} (e : Failure) (o : Option A) {a : A} → or_failed e o ≡ done a → o ≡ some a
or_failed-eq-done e none h = cc
or_failed-eq-done e (some b) h = cc

module _ (client : Client) (name : Bytes) (amount : ℕ) (params : List Bytes) where
  -- What a prepared transaction holds.
  pub record IsPrepared (p : Prepared) : Type 0 where
    pub receiver : p.signed.body.to ≡ client.contract_address
    pub value : p.signed.body.amount ≡ amount
    pub gas : p.signed.body.gas ≡ 3000000
    pub gas_price : client.suggest_gas_price ≡ some p.signed.body.gas_price
    pub payload : client.pack name params ≡ some p.signed.body.payload
    pub nonce :
        (n : ℕ) × (client.pending_nonce_at p.from ≡ some n) × (n < 2 ^ 63 → p.signed.body.nonce ≡ n)
    pub signature :
        (chain_id : ℕ) × (client.network_id ≡ some chain_id)
        × (client.transactor chain_id ≡ some p.from)
        × (client.sign_tx chain_id p.signed.body ≡ some p.signed.signature)

  nonce_field-small : (n : ℕ) → n < 2 ^ 63 → nonce_field client n ≡ n
  unfolding nonce_field
  nonce_field-small n h = ground arith

  body_of : ℕ → ℕ → Bytes → Transaction
  body_of nonce gas_price payload = record {
    nonce = nonce_field client nonce;
    to = client.contract_address;
    amount = amount;
    gas = 3000000;
    gas_price = gas_price;
    payload = payload;
  }

  prepared_of : Bytes → ℕ → ℕ → Bytes → Bytes → Prepared
  unfolding body_of
  prepared_of from nonce gas_price payload signature = record {
    from = from;
    signed = record { body = body_of nonce gas_price payload; signature = signature };
  }

  pub prepare-IsPrepared :
      (p : Prepared) → prepare client name amount params ≡ done p → IsPrepared p
  unfolding prepare prepared_of body_of
  prepare-IsPrepared p h =
      let (chain_id, h0, k0) = >>=-eq-done (or_failed network_id_failed client.network_id) _ h in
      let (from, h1, k1) =
        >>=-eq-done (or_failed transactor_failed (client.transactor chain_id)) _ k0 in
      let (nonce, h2, k2) =
        >>=-eq-done (or_failed nonce_failed (client.pending_nonce_at from)) _ k1 in
      let (price, h3, k3) =
        >>=-eq-done (or_failed gas_price_failed client.suggest_gas_price) _ k2 in
      let (payload, h4, k4) = >>=-eq-done (or_failed pack_failed (client.pack name params)) _ k3 in
      let (signature, h5, k5) =
        >>=-eq-done (or_failed sign_failed (client.sign_tx chain_id (body_of nonce price payload)))
          _ k4 in
      let same : prepared_of from nonce price payload signature ≡ p = done-inj _ _ k5 in
      subst IsPrepared same (record {
        receiver = refl;
        value = refl;
        gas = refl;
        gas_price = or_failed-eq-done _ _ h3;
        payload = or_failed-eq-done _ _ h4;
        nonce = (nonce, or_failed-eq-done _ _ h2, nonce_field-small nonce);
        signature = (
          chain_id,
          or_failed-eq-done _ _ h0,
          or_failed-eq-done _ _ h1,
          or_failed-eq-done _ _ h5,
        );
      })
    where
      done-inj : (a b : Prepared) → done a ≡ done b → a ≡ b
      done-inj a b e = cc
