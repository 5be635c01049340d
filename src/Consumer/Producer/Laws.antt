-- ===== src/Consumer/Producer/Laws.antt =====
-- What `publish_whale_alerts` hands to Kafka, and what its flush answers.
use mathlib.Core.List.{append-nil, append_assoc}
use eth_project.Prelude.{
  ℕ, suc, String, ◌≡◌, refl, sym, ap, Option, none, some, List, [], ◌∷◌, ◌++◌, map, arith, select,
  length, Bool-cases, inl, inr,
}
use eth_project.Runtime.{Runtime}
use eth_project.Consumer.Models.{TransactionModel}
use eth_project.Action.{ok}
use eth_project.Consumer.Producer.{
  Producer, Message, SendOutcome, FlushOutcome, on_deliveries, flushed, flush, is_whale,
  whale_message, send_all, publish_whale_alerts,
}

pub produced-on_deliveries :
    (rs : List (Option String)) (p : Producer) → (on_deliveries rs p).produced ≡ p.produced
unfolding on_deliveries
produced-on_deliveries [] p = refl
produced-on_deliveries (none ∷ rs) p = produced-on_deliveries rs p
produced-on_deliveries (some e ∷ rs) p = produced-on_deliveries rs (record p { error = some e })

pub produced-flush : (out : FlushOutcome) (p : Producer) → (flush out p).1.produced ≡ p.produced
unfolding flush flushed
produced-flush out p = ground (arith, produced-on_deliveries out.reports p)

module _ (rt : Runtime) where
  -- A loop of sends that returns has handed over every message, in order.
  pub produced-send_all :
      (txs : List TransactionModel) (outs : ℕ → SendOutcome) (p : Producer)
      → (send_all rt outs txs p).0 ≡ ok tt
      → (send_all rt outs txs p).1.produced ≡ p.produced ++ map (whale_message rt) txs
  unfolding send_all
  produced-send_all [] outs p h = sym (append-nil p.produced)
  produced-send_all (tx ∷ txs) outs p h =
      let m = whale_message rt tx in
      let q = on_deliveries (outs 0).reports (record p { produced = p.produced ++ (m ∷ []) }) in
      ground (
        arith,
        produced-send_all txs (λ n. outs (suc n)) q,
        produced-on_deliveries (outs 0).reports (record p { produced = p.produced ++ (m ∷ []) }),
        append_assoc p.produced (m ∷ []) (map (whale_message rt) txs),
      )

  -- Whether or not it raises, the loop has handed over an initial part of the messages.
  pub produced-send_all-IsPrefix :
      (txs : List TransactionModel) (outs : ℕ → SendOutcome) (p : Producer)
      → (sent rest : List Message) × ((send_all rt outs txs p).1.produced ≡ p.produced ++ sent)
        × (map (whale_message rt) txs ≡ sent ++ rest)
  unfolding send_all
  produced-send_all-IsPrefix [] outs p = ([], [], sym (append-nil p.produced), refl)
  produced-send_all-IsPrefix (tx ∷ txs) outs p =
      let m = whale_message rt tx in
      let p' : Producer = record p { produced = p.produced ++ (m ∷ []) } in
      let q = on_deliveries (outs 0).reports p' in
      let (sent, rest, made, split) = produced-send_all-IsPrefix txs (λ n. outs (suc n)) q in
      let same = produced-on_deliveries (outs 0).reports p' in
      elim (Bool-cases (outs 0).accepted) [
        | inl taken ↦ (
          m ∷ sent,
          rest,
          ground (arith, made, same, append_assoc p.produced (m ∷ []) sent),
          ap (◌∷◌ m) split,
        )
        | inr refused ↦
            ([], m ∷ map (whale_message rt) txs, ground (arith, append-nil p.produced), refl)
      ]

  module _ (outs : ℕ → SendOutcome) (last : FlushOutcome) (txs : List TransactionModel)
      (p : Producer) where
    -- `publish_whale_alerts` returns the number of whales, and has sent one alert for each of them.
    pub publish_ok :
        (n : ℕ)
        → (publish_whale_alerts rt outs last txs p).0 ≡ ok n
        → (n ≡ length (select is_whale txs))
          × ((publish_whale_alerts rt outs last txs p).1.produced
              ≡ p.produced ++ map (whale_message rt) (select is_whale txs))
    unfolding publish_whale_alerts
    publish_ok n h =
        let whales = select is_whale txs in
        ground (
          arith,
          produced-send_all whales outs p,
          produced-flush last (send_all rt outs whales p).1,
        )

    -- When it raises it has sent alerts for an initial part of the whales, and nothing else.
    pub publish-IsPrefix :
        (sent rest : List Message) × ((publish_whale_alerts rt outs last txs p).1.produced
          ≡ p.produced ++ sent)
        × (map (whale_message rt) (select is_whale txs) ≡ sent ++ rest)
    unfolding publish_whale_alerts
    publish-IsPrefix =
        let whales = select is_whale txs in
        let (sent, rest, made, split) = produced-send_all-IsPrefix whales outs p in
        (sent, rest, ground (arith, made, produced-flush last (send_all rt outs whales p).1), split)
