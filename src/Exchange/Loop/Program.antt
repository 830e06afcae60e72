-- ===== src/Exchange/Loop/Program.antt =====
-- The exchange with the operations of MindConnect_Library_V3.1.3.0/src/http_processor.c on one datum. What is
-- left to the environment is the initialization of a request with its headers, the correlation id,
-- and `http_client_send`.
use iot_eclipse.Base.{ℕ, ◌≡◌, false, Option}
use iot_eclipse.Code.{ErrorCode}
use iot_eclipse.HttpRequest.Section.Codes.{is_partial}
use iot_eclipse.Exchange.Content.{World, Sources, adding}
use iot_eclipse.Exchange.Content.Streaming.{add_current_data_by_streaming}
use iot_eclipse.Exchange.Content.Streaming.Laws.{streaming-Lawful}
use iot_eclipse.Exchange.Loop.{Client}
use iot_eclipse.Exchange.Loop.Send.{Honest}

-- What is left to the environment leaves the states of the data alone.
pub record Environment : Type 0 where
  pub start_request : World → ErrorCode × World
  pub add_correlation_id : World → ErrorCode × World
  pub send : World → (ErrorCode × Option ℕ) × World
  pub started : (w : World) → (start_request w).1.states ≡ w.states
  pub correlated : (w : World) → (add_correlation_id w).1.states ≡ w.states
  pub sent : (w : World) → (send w).1.states ≡ w.states

abbrev pub program : Sources → Environment → Client World
program sources e = record {
  adding = adding sources (add_current_data_by_streaming sources);
  start_request = e.start_request;
  add_correlation_id = e.add_correlation_id;
  send = e.send;
}

pub program-Honest :
    (sources : Sources) (e : Environment)
    → ((j : ℕ) → is_partial (sources.draw j).0 ≡ false)
    → Honest (program sources e)
unfolding adding
program-Honest sources e plain = record {
  lawful = streaming-Lawful sources plain;
  started = e.started;
  correlated = e.correlated;
  sent = e.sent;
}
