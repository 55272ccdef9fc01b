-- ===== src/Auth/Handler/Bodies.antt =====
-- The bodies that auth/http/handler.go reads and writes. `format_time` is Format(time.RFC3339) of a
-- time in UTC.
use wesko_go_backend.Common.{ℕ, Bool, [], ◌==◌, if◌then◌else◌}
use wesko_go_backend.Common.Text.{Text}
use wesko_go_backend.Common.Http.{ErrorResponse}
use wesko_go_backend.Auth.Models.{
  Time, Role, User, TokenPair, RegisterRequest, PasswordLoginRequest, OtpRequest, OtpVerifyRequest,
}

pub record SignupRequestBody : Type 0 where
  pub username : Text
  pub password : Text
  pub email : Text
  pub mobile : Text
  pub client_type : Text

pub record PasswordLoginRequestBody : Type 0 where
  pub username : Text
  pub password : Text
  pub client_type : Text

pub record OtpRequestBody : Type 0 where
  pub mobile : Text
  pub client_type : Text

pub record OtpVerifyRequestBody : Type 0 where
  pub mobile : Text
  pub code : Text
  pub client_type : Text

pub record SignupStatusRequestBody : Type 0 where
  pub mobile : Text

pub record RefreshRequest : Type 0 where
  pub refresh_token : Text
  pub client_type : Text

pub record CompleteProfileRequestBody : Type 0 where
  pub username : Text
  pub mobile : Text
  pub client_type : Text

pub record UserResponse : Type 0 where
  pub id : ℕ
  pub username : Text
  pub email : Text
  pub mobile : Text
  pub mobile_verified : Bool
  pub role : Role
  pub is_profile_complete : Bool
  pub created_at : Text
  pub updated_at : Text

pub record AuthResponse : Type 0 where
  pub user : UserResponse
  pub tokens : TokenPair

pub record MessageResponse : Type 0 where
  pub message : Text
  pub request_id : Text

pub record SignupStatusResponse : Type 0 where
  pub status : Text
  pub request_id : Text

pub data Body : Type 0 where
  error_body : ErrorResponse → Body
  auth_body : AuthResponse → Body
  message_body : MessageResponse → Body
  status_body : SignupStatusResponse → Body
  user_body : UserResponse → Body
  no_body : Body

-- `if !t.IsZero() { … }`
unfoldable pub shown_time : (Time → Text) → Time → Text
shown_time format_time t = if t == 0 then [] else format_time t

unfoldable pub to_user_response : (Time → Text) → User → UserResponse
unfolding shown_time
to_user_response format_time user = record {
  id = user.id;
  username = user.username;
  email = user.email;
  mobile = user.mobile;
  mobile_verified = user.mobile_verified;
  role = user.role;
  is_profile_complete = user.is_profile_complete;
  created_at = shown_time format_time user.created_at;
  updated_at = shown_time format_time user.updated_at;
}

-- The requests of the service that the handlers build.
unfoldable pub register_request : SignupRequestBody → RegisterRequest
register_request req = record {
  username = req.username;
  password = req.password;
  email = req.email;
  mobile = req.mobile;
  client_type = req.client_type;
}

unfoldable pub login_request : PasswordLoginRequestBody → PasswordLoginRequest
login_request req = record {
  username = req.username;
  password = req.password;
  client_type = req.client_type;
}

unfoldable pub otp_request : OtpRequestBody → OtpRequest
otp_request req = record { mobile = req.mobile; client_type = req.client_type }

unfoldable pub verify_request : OtpVerifyRequestBody → OtpVerifyRequest
verify_request req = record { mobile = req.mobile; code = req.code; client_type = req.client_type }
