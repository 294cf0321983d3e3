-- ===== src/Config/Keys.antt =====
-- The names of the sections and keys (libinifile/rpc_conf_base.cpp)
use y_rpc.Common.{ℕ, List, bytes_of}

abbrev pub modulesection : List ℕ
modulesection = bytes_of "ModuleConfiguration"

abbrev pub globalsection : List ℕ
globalsection = bytes_of "GlobalConfiguration"

abbrev pub defaultfixthreadskey : List ℕ
defaultfixthreadskey = bytes_of "DefaultFixThreads"

abbrev pub defaultdynthreadskey : List ℕ
defaultdynthreadskey = bytes_of "DefaultDynThreads"

abbrev pub defaultmaxworkqueuekey : List ℕ
defaultmaxworkqueuekey = bytes_of "DefaultMaxWorkQueue"

abbrev pub defaultcycletimeoutkey : List ℕ
defaultcycletimeoutkey = bytes_of "DefaultCycleTimeout"

abbrev pub defaultconnecttimeoutkey : List ℕ
defaultconnecttimeoutkey = bytes_of "DefaultConnectTimeout"

abbrev pub defaultinteractivetimeoutkey : List ℕ
defaultinteractivetimeoutkey = bytes_of "DefaultInteractiveTimeout"

abbrev pub defaulttimeoutenkey : List ℕ
defaulttimeoutenkey = bytes_of "DefaultTimeoutEn"

abbrev pub defaultcyclecheckenkey : List ℕ
defaultcyclecheckenkey = bytes_of "DefaultCycleCheckEn"

abbrev pub rpcversionkey : List ℕ
rpcversionkey = bytes_of "RPCVersion"

abbrev pub fixthreadskey : List ℕ
fixthreadskey = bytes_of "FixThreads"

abbrev pub dynthreadskey : List ℕ
dynthreadskey = bytes_of "DynThreads"

abbrev pub maxworkqueuekey : List ℕ
maxworkqueuekey = bytes_of "MaxWorkQueue"

abbrev pub cycletimeoutkey : List ℕ
cycletimeoutkey = bytes_of "CycleTimeout"

abbrev pub connecttimeoutkey : List ℕ
connecttimeoutkey = bytes_of "ConnectTimeout"

abbrev pub interactivetimeoutkey : List ℕ
interactivetimeoutkey = bytes_of "InteractiveTimeout"

abbrev pub timeoutenkey : List ℕ
timeoutenkey = bytes_of "TimeoutEn"

abbrev pub cyclecheckenkey : List ℕ
cyclecheckenkey = bytes_of "CycleCheckEn"

abbrev pub ipaddresskey : List ℕ
ipaddresskey = bytes_of "IPAddress"

abbrev pub listenportkey : List ℕ
listenportkey = bytes_of "ListenPort"
