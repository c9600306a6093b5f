-- ===== src/Core/Analytics.antt =====
-- internal/core/dahua_analytics.go and hikvision_analytics.go: the event types that the cameras may send.
use cam_bus.Base.{String, Bool, List, [], ◌∷◌, map, ◌==◌, any}
use cam_bus.Base.Str.{to_lower}

-- DahuaEventTypes
unfoldable pub dahua_event_types : List String
dahua_event_types =
    "VideoMotion" ∷ "SmartMotionHuman" ∷ "SmartMotionVehicle" ∷ "VideoLoss" ∷ "VideoBlind"
    ∷ "AlarmLocal" ∷ "CrossLineDetection" ∷ "CrossRegionDetection" ∷ "LeftDetection"
    ∷ "TakenAwayDetection" ∷ "VideoAbnormalDetection" ∷ "FaceDetection" ∷ "AudioMutation"
    ∷ "AudioAnomaly" ∷ "VideoUnFocus" ∷ "WanderDetection" ∷ "RioterDetection" ∷ "ParkingDetection"
    ∷ "MoveDetection" ∷ "StorageNotExist" ∷ "StorageFailure" ∷ "StorageLowSpace" ∷ "AlarmOutput"
    ∷ "MDResult" ∷ "HeatImagingTemper" ∷ "CrowdDetection" ∷ "FireWarning" ∷ "FireWarningInfo" ∷ []

-- HikvisionEventTypes
unfoldable pub hikvision_event_types : List String
hikvision_event_types =
    "ADAS" ∷ "ADASAlarm" ∷ "AID" ∷ "ANPR" ∷ "AccessControllerEvent" ∷ "CDsStatus" ∷ "DBD"
    ∷ "GPSUpload" ∷ "HFPD" ∷ "IO" ∷ "IOTD" ∷ "LES" ∷ "LFPD" ∷ "PALMismatch" ∷ "PIR"
    ∷ "PeopleCounting" ∷ "PeopleNumChange" ∷ "Standup" ∷ "TMA" ∷ "TMPA" ∷ "VMD"
    ∷ "abnormalAcceleration" ∷ "abnormalDriving" ∷ "advReachHeight" ∷ "alarmResult" ∷ "attendance"
    ∷ "attendedBaggage" ∷ "audioAbnormal" ∷ "audioexception" ∷ "behaviorResult"
    ∷ "blindSpotDetection" ∷ "cardMatch" ∷ "changedStatus" ∷ "collision" ∷ "containerDetection"
    ∷ "crowdSituationAnalysis" ∷ "databaseException" ∷ "defocus" ∷ "diskUnformat" ∷ "diskerror"
    ∷ "diskfull" ∷ "driverConditionMonitor" ∷ "emergencyAlarm" ∷ "faceCapture" ∷ "faceSnapModeling"
    ∷ "facedetection" ∷ "failDown" ∷ "faultAlarm" ∷ "fielddetection" ∷ "fireDetection"
    ∷ "fireEscapeDetection" ∷ "flowOverrun" ∷ "framesPeopleCounting" ∷ "getUp" ∷ "group"
    ∷ "hdBadBlock" ∷ "hdImpact" ∷ "heatmap" ∷ "highHDTemperature" ∷ "highTempAlarm" ∷ "hotSpare"
    ∷ "illaccess" ∷ "ipcTransferAbnormal" ∷ "ipconflict" ∷ "keyPersonGetUp" ∷ "leavePosition"
    ∷ "linedetection" ∷ "listSyncException" ∷ "loitering" ∷ "lowHDTemperature"
    ∷ "mixedTargetDetection" ∷ "modelError" ∷ "nicbroken" ∷ "nodeOffline" ∷ "nonPoliceIntrusion"
    ∷ "overSpeed" ∷ "overtimeTarry" ∷ "parking" ∷ "peopleNumChange" ∷ "peopleNumCounting"
    ∷ "personAbnormalAlarm" ∷ "personDensityDetection" ∷ "personQueueCounting"
    ∷ "personQueueDetection" ∷ "personQueueRealTime" ∷ "personQueueTime" ∷ "playCellphone"
    ∷ "pocException" ∷ "poe" ∷ "policeAbsent" ∷ "radarAlarm" ∷ "radarFieldDetection"
    ∷ "radarLineDetection" ∷ "radarPerimeterRule" ∷ "radarTargetDetection" ∷ "radarVideoDetection"
    ∷ "raidException" ∷ "rapidMove" ∷ "reachHeight" ∷ "recordCycleAbnormal" ∷ "recordException"
    ∷ "regionEntrance" ∷ "regionExiting" ∷ "retention" ∷ "rollover" ∷ "running"
    ∷ "safetyHelmetDetection" ∷ "scenechangedetection" ∷ "sensorAlarm" ∷ "severeHDFailure"
    ∷ "shelteralarm" ∷ "shipsDetection" ∷ "sitQuietly" ∷ "smokeAndFireDetection" ∷ "smokeDetection"
    ∷ "softIO" ∷ "spacingChange" ∷ "sysStorFull" ∷ "takingElevatorDetection" ∷ "targetCapture"
    ∷ "temperature" ∷ "thermometry" ∷ "thirdPartyException" ∷ "toiletTarry" ∷ "tollCodeInfo"
    ∷ "tossing" ∷ "unattendedBaggage" ∷ "vehicleMatchResult" ∷ "vehicleRcogResult"
    ∷ "versionAbnormal" ∷ "videoException" ∷ "videoloss" ∷ "violationAlarm" ∷ "violentMotion"
    ∷ "yardTarry" ∷ "AccessControllerEvent" ∷ "IDCardInfoEvent" ∷ "FaceTemperatureMeasurementEvent"
    ∷ "QRCodeEvent" ∷ "CertificateCaptureEvent" ∷ "UncertificateCompareEvent"
    ∷ "ConsumptionAndTransactionRecordEvent" ∷ "ConsumptionEvent" ∷ "TFS" ∷ "TransactionRecordEvent"
    ∷ "HealthInfoSyncQuery" ∷ "SetMealQuery" ∷ "ConsumptionStatusQuery" ∷ "certificateRevocation"
    ∷ "humanBodyComparison" ∷ "regionTargetNumberCounting" ∷ []

-- A set of the event types in lower case, as a list: only membership is ever asked.
unfoldable pub event_type_set : List String → List String
event_type_set = map to_lower

-- _, ok := set[key]
unfoldable pub in_set : List String → String → Bool
in_set set key = any (λ t. t == key) set

-- DahuaEventTypeSet
unfoldable pub dahua_event_type_set : List String
unfolding event_type_set dahua_event_types
dahua_event_type_set = event_type_set dahua_event_types

-- HikvisionEventTypeSet
unfoldable pub hikvision_event_type_set : List String
unfolding event_type_set hikvision_event_types
hikvision_event_type_set = event_type_set hikvision_event_types
