-- ===== src/ResponseCode.antt =====
-- The table of negative response codes of uds_client/response_code.go.
use linbuskit.Base.{ℕ, ◌+◌, ◌≡◌, arith, List, [], ◌∷◌, Option, none, some, ◌==◌, if◌then◌else◌, All}
use Prim.Native.String.{String}

abbrev pub nrc_map : List (ℕ × String)
nrc_map =
    (0x00, "PositiveResponse")
    ∷ (0x10, "GeneralReject")
    ∷ (0x11, "ServiceNotSupported")
    ∷ (0x12, "SubFunctionNotSupported")
    ∷ (0x13, "IncorrectMessageLengthOrInvalidFormat")
    ∷ (0x14, "ResponseTooLong")
    ∷ (0x21, "BusyRepeatRequest")
    ∷ (0x22, "ConditionsNotCorrect")
    ∷ (0x24, "RequestSequenceError")
    ∷ (0x25, "NoResponseFromSubnetComponent")
    ∷ (0x26, "FailurePreventsExecutionOfRequestedAction")
    ∷ (0x31, "RequestOutOfRange")
    ∷ (0x33, "SecurityAccessDenied")
    ∷ (0x34, "AuthenticationRequired")
    ∷ (0x35, "InvalidKey")
    ∷ (0x36, "ExceedNumberOfAttempts")
    ∷ (0x37, "RequiredTimeDelayNotExpired")
    ∷ (0x38, "SecureDataTransmissionRequired")
    ∷ (0x39, "SecureDataTransmissionNotAllowed")
    ∷ (0x3A, "SecureDataVerificationFailed")
    ∷ (0x50, "CertificateVerificationFailed_InvalidTimePeriod")
    ∷ (0x51, "CertificateVerificationFailed_InvalidSignature")
    ∷ (0x52, "CertificateVerificationFailed_InvalidChainOfTrust")
    ∷ (0x53, "CertificateVerificationFailed_InvalidType")
    ∷ (0x54, "CertificateVerificationFailed_InvalidFormat")
    ∷ (0x55, "CertificateVerificationFailed_InvalidContent")
    ∷ (0x56, "CertificateVerificationFailed_InvalidScope")
    ∷ (0x57, "CertificateVerificationFailed_InvalidCertificate")
    ∷ (0x58, "OwnershipVerificationFailed")
    ∷ (0x59, "ChallengeCalculationFailed")
    ∷ (0x5A, "SettingAccessRightsFailed")
    ∷ (0x5B, "SessionKeyCreationDerivationFailed")
    ∷ (0x5C, "ConfigurationDataUsageFailed")
    ∷ (0x5D, "DeAuthenticationFailed")
    ∷ (0x70, "UploadDownloadNotAccepted")
    ∷ (0x71, "TransferDataSuspended")
    ∷ (0x72, "GeneralProgrammingFailure")
    ∷ (0x73, "WrongBlockSequenceCounter")
    ∷ (0x78, "RequestCorrectlyReceived_ResponsePending")
    ∷ (0x7E, "SubFunctionNotSupportedInActiveSession")
    ∷ (0x7F, "ServiceNotSupportedInActiveSession")
    ∷ (0x81, "RpmTooHigh")
    ∷ (0x82, "RpmTooLow")
    ∷ (0x83, "EngineIsRunning")
    ∷ (0x84, "EngineIsNotRunning")
    ∷ (0x85, "EngineRunTimeTooLow")
    ∷ (0x86, "TemperatureTooHigh")
    ∷ (0x87, "TemperatureTooLow")
    ∷ (0x88, "VehicleSpeedTooHigh")
    ∷ (0x89, "VehicleSpeedTooLow")
    ∷ (0x8A, "ThrottlePedalTooHigh")
    ∷ (0x8B, "ThrottlePedalTooLow")
    ∷ (0x8C, "TransmissionRangeNotInNeutral")
    ∷ (0x8D, "TransmissionRangeNotInGear")
    ∷ (0x8F, "BrakeSwitchNotClosed")
    ∷ (0x90, "ShifterLeverNotInPark")
    ∷ (0x91, "TorqueConverterClutchLocked")
    ∷ (0x92, "VoltageTooHigh")
    ∷ (0x93, "VoltageTooLow")
    ∷ (0x94, "ResourceTemporarilyNotAvailable")
    ∷ (0x38 + 3, "TerminationWithSignatureRequested")
    ∷ (0x38 + 4, "AccessDenied")
    ∷ (0x38 + 5, "VersionNotSupported")
    ∷ (0x38 + 6, "SecuredLinkNotSupported")
    ∷ (0x38 + 7, "CertificateNotAvailable")
    ∷ (0x38 + 8, "AuditTrailInformationNotAvailable")
    ∷ []

abbrev lookup_name : ℕ → List (ℕ × String) → Option String
lookup_name code [] = none
lookup_name code ((k, name) ∷ rest) = if k == code then some name else lookup_name code rest

abbrev name_or_unknown : Option String → String
name_or_unknown none = "Unknown NRC"
name_or_unknown (some name) = name

unfoldable pub get_nrc_string : ℕ → String
get_nrc_string code = name_or_unknown (lookup_name code nrc_map)

-- An entry of a table.
pub data Entry (code : ℕ) (name : String) : List (ℕ × String) → Type 0 where
  first :
      {k : ℕ} {n : String} {rest : List (ℕ × String)}
      → k ≡ code
      → n ≡ name
      → Entry code name ((k, n) ∷ rest)
  later :
      {p : ℕ × String} {rest : List (ℕ × String)}
      → Entry code name rest
      → Entry code name (p ∷ rest)

abbrev Named : ℕ × String → Type 0
Named p = get_nrc_string p.0 ≡ p.1

nrc_map-Named : All Named nrc_map
unfolding get_nrc_string
nrc_map-Named = ground arith

Entry-Named :
    (code : ℕ) (name : String) (table : List (ℕ × String))
    → All Named table
    → Entry code name table
    → get_nrc_string code ≡ name
Entry-Named code name [] h x = elim x [ ]
Entry-Named code name ((k, n) ∷ rest) h (first e f) = cc
Entry-Named code name (p ∷ rest) h (later e) = Entry-Named code name rest h.1 e

-- Every entry of the table is found under its code: no two entries share one.
get_nrc_string-Entry :
    (code : ℕ) (name : String) → Entry code name nrc_map → get_nrc_string code ≡ name
get_nrc_string-Entry code name e = Entry-Named code name nrc_map nrc_map-Named e
