-- ===== src/Client.antt =====
-- client/src/grpc-client/grpc_client.cpp and client-config/client_config.cpp: the client. The service
-- that it calls is a parameter: the status of the call and the reply. What it logs is left out.
use distributed_task_dispatc.Prelude.{
  Bool, Option, String, Result, ok, ◌>>=◌, or_fault, invalid_argument,
}
use distributed_task_dispatc.Expr.Json.{Json, at, get_string}
use distributed_task_dispatc.Manager.{CalculationReply}

-- `ReadFile`, of a file that opens or not.
unfoldable pub read_file : Option String → Result String
read_file contents = or_fault contents invalid_argument

-- `Config::FromJson`.
pub record Config : Type 0 where
  pub target : String

unfoldable pub config_from_json : (String → Result Json) → Option String → Result Config
config_from_json parse contents = do
  text ← or_fault contents invalid_argument
  document ← parse text
  member ← at "target" document
  target ← get_string member
  ok (record { target = target })

-- `grpc::Status::ok` of a call, with its reply.
pub record Call : Type 0 where
  pub is_ok : Bool
  pub reply : CalculationReply

-- `DecompDispatchClient::CalculateProblem` with its wait for the callback: the reply is only logged.
unfoldable pub calculate_problem : (String → Call) → String → Bool
calculate_problem service str = (service str).is_ok

-- `RunClient`, from the file to whether it finished successfully.
unfoldable pub run_client : (String → Call) → Option String → Result Bool
unfolding read_file calculate_problem
run_client service contents = do
  json_str ← read_file contents
  ok (calculate_problem service json_str)
