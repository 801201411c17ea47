-- ===== src/Client/Tests.antt =====
-- Runs of the client, and the theorems at them.
use yantra_os.Prelude.{◌≡◌, refl, true, false, none, some, [], ◌∷◌}
use yantra_os.Prelude.Lists.{codes}
use yantra_os.Prelude.Result.{ok, err}
use yantra_os.Json.{obj}
use yantra_os.Files.{socket}
use yantra_os.Client.Answer.{
  SandboxResult, failure, natural, sandbox_image, payload_of, result_from_response, wrong_image,
  result_from_response-payload_of,
}
use yantra_os.Client.Execution.{
  Library, Broker, healthy, execute, is_valid_script, IsRoots, execute-IsRoots,
}

abbrev failed_run : SandboxResult
failed_run = record {
  outcome = failure;
  exit_code = natural 2;
  stdout = "out";
  stderr = "no such file";
  duration_secs = 7;
  container_id = "c0ffee";
  image = sandbox_image;
  script_hash = "ab12";
  error = none;
}

result_from_response-payload_of_example :
    result_from_response (λ n. 0) (obj (payload_of failed_run)) ≡ ok failed_run
result_from_response-payload_of_example = result_from_response-payload_of (λ n. 0) failed_run refl

image_run :
    result_from_response (λ n. 0) (obj (payload_of (record failed_run { image = "other" })))
    ≡ err wrong_image
unfolding result_from_response payload_of
image_run = refl

abbrev library : Library
library = record {
  is_blank = λ s. false;
  utf8_length = λ s. 2;
  sha256_16 = λ s. "ab12";
  encode_request = λ s. s;
  loads = λ line. some (obj (payload_of failed_run));
  to_float = λ n. 0;
}

abbrev broker : Broker
broker = record {
  path =
      some
        (record { kind = socket; uid = 0; gid = 0; mode = 0o660; size = 0; device = 1; inode = 2 });
  connects = true;
  peer_uid = some 0;
  writes = true;
  can_write_eof = true;
  answer = some (123 ∷ 125 ∷ 10 ∷ []);
}

ls_run : (execute library broker healthy (codes "ls")).sent ≡ some (108 ∷ 115 ∷ 10 ∷ [])
unfolding execute payload_of
ls_run = refl

-- a peer that is not root gets nothing
stranger_run :
    (execute library (record broker { peer_uid = some 7 }) healthy (codes "ls")).sent ≡ none
unfolding execute
stranger_run = refl

execute-IsRoots_example : (is_valid_script library (codes "ls") ≡ true) × IsRoots broker
execute-IsRoots_example =
    execute-IsRoots library broker healthy (codes "ls") (108 ∷ 115 ∷ 10 ∷ []) ls_run
